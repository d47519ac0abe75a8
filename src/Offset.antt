-- ===== src/Offset.antt =====
-- The offsets of a consumer group: offset_manager.go.
pub mod Partition
pub mod Manager
pub mod World
pub mod Fetch
pub mod Committed
pub mod Invariant
pub mod Serial
pub mod Overlap
mod Runs
