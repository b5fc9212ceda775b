-- ===== src/Windows/Reconstruct.antt =====
-- hidapi/windows/hidapi_descriptor_reconstruct.c: a report descriptor out of what Windows keeps of it.
pub mod Emit
pub mod Encode
pub mod Items
pub mod Nodes
pub mod Preparsed
