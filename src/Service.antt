-- ===== src/Service.antt =====
-- service: the small server whose environment the lab controls.
pub mod Config
pub mod Logging
pub mod Server
pub mod Signals
pub mod Main
pub mod Telemetry
