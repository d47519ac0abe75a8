-- ===== src/Record.antt =====
-- The records of a batch: record.go.
pub mod Data
pub mod Format
pub mod RoundTrip
mod Runs
