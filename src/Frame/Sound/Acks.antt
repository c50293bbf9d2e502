-- ===== src/Frame/Sound/Acks.antt =====
-- The decoder of ACK frames in lib/ngtcp2_pkt.c, pass by pass.
pub mod Passing
pub mod Ranges
pub mod Ecn
pub mod Measure
pub mod Whole
