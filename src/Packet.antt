-- ===== src/Packet.antt =====
-- Packet numbers, the checks of an ACK frame and the head of a packet, of lib/ngtcp2_pkt.c.
pub mod PacketNumber
pub mod AckRanges
pub mod VersionCid
pub mod VersionNegotiation
pub mod Header
pub mod Retry
pub mod StatelessReset
pub mod ServerName
pub mod Examples
