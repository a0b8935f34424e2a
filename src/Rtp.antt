-- ===== src/Rtp.antt =====
-- src/cast_rtp.rs: the Cast RTP sender.
pub mod Packet
pub mod History
pub mod Feedback
pub mod Sender
pub mod Samples
pub mod Threads
mod Tests
