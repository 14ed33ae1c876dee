-- ===== src/Kcp.antt =====
-- lib/kcp: the ARQ protocol engine that the two endpoints run over the coded channel.
pub mod Segment
pub mod State
pub mod Send
pub mod Recv
pub mod Ack
pub mod Input
pub mod Flush
pub mod Update
pub mod Message
pub mod Valid
pub mod Life
pub mod Unmoved
pub mod Congestion
mod Tests
