-- ===== src/Forwarders.antt =====
-- plugins/forwarder/grpc: how batches of events go out over the streams of the gRPC client.
pub mod Net
pub mod Log
pub mod Event
pub mod Meter
pub mod Management
pub mod Otlp
mod Tests
