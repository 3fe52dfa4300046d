-- ===== src/Queues.antt =====
-- The queues behind plugins/queue/api, and the partitioned queue over them.
pub mod Api
pub mod Memory
pub mod None
pub mod Partition
pub mod Tests
