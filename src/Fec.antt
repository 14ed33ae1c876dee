-- ===== src/Fec.antt =====
-- lib/libfec: forward error correction over groups of packets.
pub mod Wire
pub mod Encode
pub mod Timeout
pub mod Groups
pub mod Decode
pub mod Code
pub mod Packets
pub mod RoundTrip
pub mod Uncoded
pub mod Tests
