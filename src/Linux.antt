-- ===== src/Linux.antt =====
-- hidapi/linux/hid.c, the hidraw backend.
pub mod Descriptor
pub mod Uevent
pub mod Device
pub mod DeviceInfo
pub mod Enumerate
