-- ===== src/Tests.antt =====
-- Runs of the models on concrete data.
mod Race
mod Service
mod Window
mod Windows
mod Reconstruct
mod Enumerate
mod Linux
mod Libusb
