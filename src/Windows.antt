-- ===== src/Windows.antt =====
-- hidapi/windows/hid.c and hidapi/windows/hidapi_descriptor_reconstruct.c, the Windows backend, which
-- the tool is built with.
pub mod Strings
pub mod Transfers
pub mod Reports
pub mod DevNode
pub mod State
pub mod DeviceInfo
pub mod Enumerate
pub mod Reconstruct
