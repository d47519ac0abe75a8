-- ===== src/Txn.antt =====
-- The transactions of a producer: transaction_manager.go, and the calls of it in async_producer.go.
pub mod Errors
pub mod Status
pub mod State
pub mod Sequence
pub mod Retry
pub mod Phases
pub mod Partitions
pub mod Offsets
pub mod Ids
pub mod Finish
pub mod Keeps
pub mod Ends
pub mod Calls
pub mod Outcomes
pub mod Publish
mod Runs
