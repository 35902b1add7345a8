-- ===== src/Network.antt =====
-- The network module (app/modules/network/): configuration, topology, faults, verbs, coverage,
-- device views and telemetry.
pub mod Config
pub mod Home
pub mod Faults
pub mod Actions
pub mod Repair
pub mod Coverage
pub mod Devices
pub mod Telemetry
