-- ===== src/Wire/RoundTrip.antt =====
-- Reading back what was written.
pub mod Reads
pub mod Puts
pub mod Arrays
pub mod Lengths
pub mod Interface
pub mod Written
