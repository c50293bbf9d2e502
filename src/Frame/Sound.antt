-- ===== src/Frame/Sound.antt =====
-- The decoders of lib/ngtcp2_pkt.c, which measure a frame before they read it, against its layout.
pub mod Flow
pub mod Control
pub mod Data
pub mod Acks
pub mod Whole
pub mod Progress
