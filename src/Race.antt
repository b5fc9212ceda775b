-- ===== src/Race.antt =====
-- The tool's own core (src/core, src/service, src/transport): RACE commands in HID reports.
pub mod Packet
pub mod Response
pub mod Transport
pub mod Command
pub mod Service
pub mod Serial
