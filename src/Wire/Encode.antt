-- ===== src/Wire/Encode.antt =====
-- The writers of the wire format: prep_encoder.go, real_encoder.go and encoder_decoder.go.
pub mod Packet
pub mod Prep
pub mod Real
pub mod Passes
pub mod Encoding
pub mod Writes
pub mod Sizes
pub mod Counted
pub mod Agree
