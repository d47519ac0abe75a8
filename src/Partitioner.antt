-- ===== src/Partitioner.antt =====
-- The partitioners: partitioner.go.
pub mod Hash
pub mod RoundRobin
mod Runs
