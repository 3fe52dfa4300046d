-- ===== src/Receivers.antt =====
-- plugins/receiver/grpc: how messages of a stream become events.
pub mod Collect
pub mod Als
pub mod Limiter
pub mod Conserve
pub mod Taken
mod Tests
