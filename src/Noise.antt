-- ===== src/Noise.antt =====
-- src/noise.rs: the choice of handshake options and the transport framing of a completed session.
pub mod Canonical
pub mod Handshake
pub mod Select
pub mod Cipher
pub mod Frames
pub mod Slices
pub mod Carry
pub mod Chunks
pub mod RoundTrip
pub mod Reassembly
