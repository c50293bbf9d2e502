-- ===== src/Lib.antt =====
-- Verification of the QUIC library zngtcp2, by components of its lib/ directory.
--
-- A pointer into a packet is the list of the bytes from it to the end of the buffer; a function that
-- advances a pointer returns the new list. A function that can fail returns an `Outcome`: `err` is a
-- code NGTCP2_ERR_*, and `fault` is what must not happen, a read outside the buffer or a failed
-- `assert`. Integers are the natural numbers, with the wrap-around of a conversion or an addition
-- written out as `% 2 ^ w` where the source can reach it. Every loop is recursion on a list or a
-- number of steps, except the ones over the transport parameters and over the extensions of a
-- ClientHello: their fuel is the number of the bytes, or one more, which is enough since every round
-- takes at least one.
--
-- Base: the numbers, lists, tests and outcomes that all modules share.
-- Conv: lib/ngtcp2_conv.c. `get_uvarint` is ngtcp2_get_uvarint, and so on for every reader and
--   writer. Conv/Read compares the reader with the algorithm of RFC 9000, A.1, Conv/Write says
--   what the writers write, and that it is read back.
-- Frame: the frames of lib/ngtcp2_pkt.h, and of lib/ngtcp2_pkt.c ngtcp2_frame_decoder_decode and
--   ngtcp2_pkt_encode_frame with all the decoders and encoders that they call, on top of Conv. A
--   decoder of the source first measures the frame field by field and then reads the fields again;
--   Frame/Decode keeps both passes, their guards and the final `assert`. Frame/Layout is the layout
--   of each frame as RFC 9000 and RFC 9221 give it, read in one pass. Frame/Sound compares the two,
--   Frame/RoundTrip the encoders with Frame/Wire, which says what the bytes are. Frame/Size has
--   ngtcp2_pkt_stream_max_datalen and ngtcp2_pkt_crypto_max_datalen.
-- Packet: ngtcp2_pkt_adjust_pkt_num (with the packet numbers that Conv writes),
--   ngtcp2_pkt_validate_ack (on the ACK frames of Frame), ngtcp2_pkt_decode_version_cid, the
--   Version Negotiation packets that it and ngtcp2_pkt_decode_version_negotiation read, and the four
--   codecs ngtcp2_pkt_decode_hd_* and ngtcp2_pkt_encode_hd_* of packet headers, Retry packets
--   (ngtcp2_pkt_write_retry, ngtcp2_pkt_decode_retry, ngtcp2_pkt_verify_retry_tag) and Stateless
--   Reset packets, and ngtcp2_pkt_find_server_name, the search of a ClientHello, all of
--   lib/ngtcp2_pkt.c. Packet/Header/Layout is the layout of a long header, read in one pass. The
--   callback `encrypt_retry` of the application is a parameter, of which the theorems ask only that
--   it makes 16 bytes.
-- Reorder: lib/ngtcp2_reorder.c, the buffer of stream data that arrives out of order, with a list for
--   the linked list of entries. Reorder/Content gives its abstract view, the byte at each offset.
-- GapTracker: lib/ngtcp2_gaptr.c with lib/ngtcp2_range.c, and lib/ngtcp2_idtr.c, which tracks stream
--   IDs by it. The skip list of lib/ngtcp2_ksl.c is the list of its keys.
-- RateLimit: lib/ngtcp2_ratelim.c, a token bucket; RateLimit/Bucket compares it with one that neither
--   rounds nor overflows.
-- Pmtud: lib/ngtcp2_pmtud.c, the search for the payload size of a path, as a state machine.
--   Pmtud/Run is about all sequences of its events, Pmtud/Ends about lost probes.
-- RingBuf: lib/ngtcp2_ringbuf.c, the indices of a ring buffer, whose slots the caller fills.
-- Params: lib/ngtcp2_transport_params.c. Params/Encode is
--   ngtcp2_transport_params_encode_versioned, its two passes as lists of what the parameters add, and
--   Params/Decode/Whole ngtcp2_transport_params_decode_versioned. Params/Safe is about any bytes,
--   Params/RoundTrip about those that are sent. Both stand on Conv.
-- Congestion: lib/ngtcp2_cc.c, the NewReno and CUBIC controllers on the statistics of
--   lib/ngtcp2_conn_stat.h, with ngtcp2_cbrt.
-- AckTracker: lib/ngtcp2_acktr.c, the packets to acknowledge. The frame that it makes is one of Frame,
--   and passes ngtcp2_pkt_validate_ack of Packet. AckTracker/Tracked says which packets the entries
--   stand for, AckTracker/Reach has the steps of the tracker.
-- WindowFilter: lib/ngtcp2_window_filter.c, the best sample of a window, by three estimates.
--
-- Not modelled: the connection (lib/ngtcp2_conn.c), loss recovery (lib/ngtcp2_rtb.c), BBR and streams;
-- of lib/ngtcp2_pkt.c the functions ngtcp2_pkt_next_tx_*, which get a buffer and call a writer, and
-- those that split and shuffle CRYPTO data by random numbers; memory management and containers; packet
-- protection, which is calls of a TLS library; logging; the examples and the vendored HTTP parser.
mod Base
pub mod Conv
pub mod Frame
pub mod Packet
pub mod Reorder
pub mod RateLimit
pub mod Pmtud
pub mod GapTracker
pub mod RingBuf
pub mod Params
pub mod Congestion
pub mod AckTracker
pub mod WindowFilter
