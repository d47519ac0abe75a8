-- ===== src/Wire/Decode.antt =====
-- The reader of the wire format: real_decoder.go.
pub mod Monad
pub mod Primitives
pub mod Collections
pub mod Fields
pub mod Method
pub mod Sound
pub mod Bounds
pub mod Panics
