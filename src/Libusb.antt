-- ===== src/Libusb.antt =====
-- hidapi/libusb/hid.c, the libusb backend.
pub mod Queue
pub mod Read
pub mod Error
pub mod Reports
pub mod Interface
pub mod Usage
