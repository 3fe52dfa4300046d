-- ===== src/Telemetry.antt =====
-- internal/satellite/telemetry: the metrics that the satellite keeps of itself.
pub mod Labels
pub mod Appended
pub mod Pointer
pub mod Inline
pub mod Vector
pub mod Totals
pub mod Server
pub mod Sending
pub mod Timers
pub mod Center
pub mod Init
mod Tests
