-- ===== src/Producer.antt =====
-- The asynchronous producer: async_producer.go and produce_set.go.
pub mod Partition
pub mod Order
pub mod Steps
pub mod Flush
pub mod Dispatch
pub mod Loop
pub mod Messages
pub mod Set
pub mod Totals
pub mod Limits
pub mod Broker
pub mod Run
pub mod Tally
pub mod Handled
pub mod Kept
pub mod Account
pub mod Shutdown
pub mod Drained
mod Runs
mod Batches
