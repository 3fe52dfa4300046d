-- ===== src/Mmap.antt =====
-- The memory-mapped queue of plugins/queue/mmap.
pub mod File
pub mod Quiet
pub mod Kept
pub mod Meta
pub mod Outcome
pub mod State
pub mod Segments
pub mod Access
pub mod Operation
pub mod Position
pub mod Layout
pub mod Bytes
pub mod Write
pub mod Length
pub mod Read
pub mod Linear
pub mod Fifo
pub mod Offset
pub mod Service
pub mod History
mod Ram
mod Tests
