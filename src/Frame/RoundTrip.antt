-- ===== src/Frame/RoundTrip.antt =====
-- What `ngtcp2_pkt_encode_frame` writes, `ngtcp2_frame_decoder_decode` reads back.
pub mod Encoded
pub mod Data
pub mod Readable
pub mod Fields
pub mod Bytes
pub mod Whole
