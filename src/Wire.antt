-- ===== src/Wire.antt =====
-- The wire format.
pub mod Bytes
pub mod Varint
pub mod Checksum
pub mod Decode
pub mod Encode
pub mod RoundTrip
mod Runs
