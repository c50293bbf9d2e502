-- ===== src/Packet/Header/Layout.antt =====
-- The layouts of RFC 9000, sections 17.2 and 17.3, read field by field; `none` means that the header is
-- cut short or malformed.
use zngtcp.Base.{
  ℕ, ◌+◌, ◌-◌, ◌*◌, ◌/◌, ◌%◌, List, [], ◌∷◌, Option, none, some, false, not, ◌&&◌, Outcome, ok, err,
  invalid_argument, leb, ◌==◌, length, if◌then◌else◌,
}
use zngtcp.Conv.Read.{read_varint}
use zngtcp.Frame.Layout.{◌>>=◌, read_bytes, read_byte, read_block}
use zngtcp.Packet.Header.{PktType, version_negotiation, initial, retry, PktHd, get_type_long}
use zngtcp.Packet.Header.Decode.{is_version_negotiation}

-- A connection ID of 20 bytes at most, behind its length
unfoldable pub read_cid20 : List ℕ → Option (List ℕ × List ℕ)
unfolding read_byte read_bytes
read_cid20 p = do (n, q) ← read_byte p; (if leb n 20 then read_bytes n q else none)

-- The token, which Initial packets have, and Length, which all but Retry and Version Negotiation have
unfoldable pub read_tail : PktType → List ℕ → Option ((List ℕ × ℕ) × List ℕ)
unfolding read_block
read_tail version_negotiation p = some (([], 0), p)
read_tail retry p = some (([], 0), p)
read_tail initial p = do (token, q) ← read_block p; (n, r) ← read_varint q; some ((token, n), r)
read_tail _ p = do (n, q) ← read_varint p; some (([], n), q)

unfoldable pub long_hd : ℕ → ℕ → PktType → List ℕ → List ℕ → List ℕ → ℕ → PktHd
long_hd first version type dcid scid token len =
    let is_long = not (is_version_negotiation type) in
    record {
      flags = record {
        long_form = is_long;
        fixed_bit_clear = is_long && not (first / 64 % 2 == 1);
        key_phase = false;
      };
      type = type;
      dcid = dcid;
      scid = scid;
      pkt_num = 0;
      token = token;
      pkt_numlen = 0;
      len = len;
      version = version;
    }

-- Version 0 is a Version Negotiation packet.
unfoldable pub read_type : ℕ → ℕ → Option PktType
unfolding get_type_long
read_type first version =
    if version == 0 then some version_negotiation else get_type_long version first

unfoldable pub read_fields : ℕ → ℕ → PktType → List ℕ → Option (PktHd × List ℕ)
read_fields first version type p = do
  (dcid, p1) ← read_cid20 p
  (scid, p2) ← read_cid20 p1
  ((token, len), q) ← read_tail type p2
  some (long_hd first version type dcid scid token len, q)

-- The first bit is that of a long header.
unfoldable pub read_hd_long : List ℕ → Option (PktHd × List ℕ)
unfolding read_type read_fields
read_hd_long (t ∷ a ∷ b ∷ c ∷ d ∷ p) =
    let version = ((a * 256 + b) * 256 + c) * 256 + d in
    let fields = (do type ← read_type t version; read_fields t version type p) in
    if t / 128 % 2 == 1 then fields else none
read_hd_long _ = none

-- What a decoder must return for the header that the layout reads, if the packet goes on behind it
abbrev pub header_result : List ℕ → Option (PktHd × List ℕ) → Outcome (PktHd × ℕ)
header_result pkt none = err invalid_argument
header_result pkt (some (hd, q)) = ok (hd, length pkt - length q)
