-- ===== src/MainWindow.antt =====
-- src/ui/main_window.cpp: the logic of the main window, from the texts of its fields on.
pub mod Settings
pub mod SettingsFile
pub mod Mac
pub mod Csv
pub mod Print
pub mod Write
pub mod AutoSn
