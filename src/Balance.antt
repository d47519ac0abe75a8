-- ===== src/Balance.antt =====
-- The balance strategies: balance_strategy.go.
pub mod Range
pub mod RoundRobin
pub mod Complete
mod Runs
mod RoundRobinRuns
