-- ===== src/Sender.antt =====
-- internal/satellite/module/sender with module/buffer and satellite/event: events are kept in
-- batches per partition, and a batch is forwarded and acknowledged.
pub mod Buffer
pub mod Store
pub mod Consume
pub mod Fallback
pub mod Sync
pub mod Shutdown
mod Tests
