-- ===== src/Packet/Header/Decoded.antt =====
-- `ngtcp2_pkt_decode_hd_long` of lib/ngtcp2_pkt.c returns what the layout says.
mod Cids
use zngtcp.Base.{
  ℕ, zero, suc, ◌+◌, ◌*◌, ◌≤◌, ◌≡◌, refl, ap, sym, ◌∙◌, inl, inr, List, [], ◌∷◌, Option, none, some,
  Option-cases, Outcome, ok, err, invalid_argument, leb, guard, ◌>>◌, length, drop, take,
  length-drop, length-take, All, arith,
}
use zngtcp.Conv.{IsByte, get_uint32be}
use zngtcp.Frame.Cursor.{advance}
use zngtcp.Conv.Read.{All-drop}
use zngtcp.Packet.Header.{PktType}
use zngtcp.Packet.Header.Decode.{min_len, decode_cid, decode_fields, decode_hd_long, long_type}
use zngtcp.Packet.VersionCid.{slice, byte_of}
use zngtcp.Packet.Header.Tail.{min_len-ge, tail-agrees-at}
use zngtcp.Packet.Header.Layout.{
  read_cid20, long_hd, read_type, read_fields, read_hd_long, header_result,
}
use zngtcp.Packet.Header.Decoded.Cids.{
  cid_result, decode_cid-layout, read_cid20-some, cid-step, slice-dcid, slice-scid,
}

module _ (t a b c e d : ℕ) (x : List ℕ) (version : ℕ) (type : PktType) where
  abbrev pkt : List ℕ
  pkt = t ∷ a ∷ b ∷ c ∷ e ∷ d ∷ x

  -- The connection IDs are `dcid` and `scid`, with `r` behind them.
  tail-layout :
      (dcid scid r : List ℕ) (s : ℕ) (y : List ℕ)
      → read_cid20 (d ∷ x) ≡ some (dcid, s ∷ y)
      → read_cid20 (s ∷ y) ≡ some (scid, r)
      → All IsByte r
      → decode_fields pkt t version type (d ∷ x)
        ≡ header_result pkt (read_fields t version type (d ∷ x))
  unfolding decode_fields read_fields long_hd
  tail-layout dcid scid r s y first second h =
      let (le, (cid, at)) = read_cid20-some d x dcid (s ∷ y) first in
      let (le', (cid', at')) = read_cid20-some s y scid r second in
      let m = min_len type in
      let size : length y + suc d ≡ length x = omega (arith, ap length at, length-drop d x) in
      let one =
        cid-step (6 + length x) 5 m d x dcid (s ∷ y) (omega arith) (omega (arith, min_len-ge type))
          first in
      let two =
        cid-step (6 + length x) (6 + d) (m + d) s y scid r (omega (arith, size))
          (omega (arith, min_len-ge type)) second in
      let rest_size : length r + s ≡ length y =
        omega (arith, ap length at', length-drop s y, le') in
      let ge = min_len-ge type in
      let cid_again = slice-dcid t a b c e d x le in
      let cid_again' = slice-scid t a b c e d s x y (sym at) le' le in
      elim (tail-agrees-at (6 + length x) (7 + d + s) (m + d + s) type r
        (omega (arith, size, rest_size)) (omega (arith, ge)) h) [
          | inl f ↦ ground (arith, one, two, ge, f.unread, f.refused, first, second)
          | inr a ↦ ground (
            arith, one, two, ge, a.enough, a.decodes, a.reads, a.counted, cid_again, cid_again',
            cid, cid', first, second, size, rest_size,
          )
        ]

  short_packet :
      (dcid : List ℕ)
      → read_cid20 (d ∷ x) ≡ some (dcid, [])
      → decode_fields pkt t version type (d ∷ x)
        ≡ header_result pkt (read_fields t version type (d ∷ x))
  unfolding decode_fields read_fields read_cid20
  short_packet dcid first =
      let (le, (cid, at)) = read_cid20-some d x dcid [] first in
      let m = min_len type in
      let ge = min_len-ge type in
      let one = cid-step (6 + length x) 5 m d x dcid [] (omega arith) (omega (arith, ge)) first in
      ground (arith, one, ge, first, ap length at, length-drop d x)

  bad_scid :
      (dcid : List ℕ) (s : ℕ) (y : List ℕ)
      → read_cid20 (d ∷ x) ≡ some (dcid, s ∷ y)
      → read_cid20 (s ∷ y) ≡ none
      → decode_fields pkt t version type (d ∷ x)
        ≡ header_result pkt (read_fields t version type (d ∷ x))
  unfolding decode_fields read_fields
  bad_scid dcid s y first second =
      let (le, (cid, at)) = read_cid20-some d x dcid (s ∷ y) first in
      let m = min_len type in
      let ge = min_len-ge type in
      let size : 6 + d + suc (length y) ≡ 6 + length x =
        omega (arith, ap length at, length-drop d x) in
      let one =
        cid-step (6 + length x) 5 m d x dcid (s ∷ y) (omega arith) (omega (arith, ge)) first in
      let two = decode_cid-layout (6 + d) (m + d) s y (omega (arith, ge)) in
      let two' : decode_cid (6 + length x) (m + d) (s ∷ y) ≡ err invalid_argument =
        ap (λ n. decode_cid n (m + d) (s ∷ y)) (sym size)
        ∙ two
        ∙ ap (cid_result (6 + d + suc (length y)) (m + d)) second in
      ground (arith, one, two', first, second)

  bad_dcid :
      read_cid20 (d ∷ x) ≡ none
      → decode_fields pkt t version type (d ∷ x)
        ≡ header_result pkt (read_fields t version type (d ∷ x))
  unfolding decode_fields read_fields
  bad_dcid first =
      let two = decode_cid-layout 5 (min_len type) d x (omega (arith, min_len-ge type)) in
      ground (arith, two, first)

  behind_dcid :
      (dcid p : List ℕ)
      → read_cid20 (d ∷ x) ≡ some (dcid, p)
      → All IsByte p
      → decode_fields pkt t version type (d ∷ x)
        ≡ header_result pkt (read_fields t version type (d ∷ x))
  behind_dcid dcid [] first h = short_packet dcid first
  behind_dcid dcid (s ∷ y) first h = elim (Option-cases (read_cid20 (s ∷ y))) [
    | inl second ↦ bad_scid dcid s y first second
    | inr ((scid, r), second) ↦
        let (_, (_, at)) = read_cid20-some s y scid r second in
        tail-layout dcid scid r s y first second (rw at (All-drop s y h.1))
  ]

  fields-layout :
      All IsByte x
      → decode_fields pkt t version type (d ∷ x)
        ≡ header_result pkt (read_fields t version type (d ∷ x))
  fields-layout h = elim (Option-cases (read_cid20 (d ∷ x))) [
    | inl first ↦ bad_dcid first
    | inr ((dcid, p), first) ↦
        let (_, (_, at)) = read_cid20-some d x dcid p first in
        behind_dcid dcid p first (rw at (All-drop d x h))
  ]

cut_fields :
    (pkt : List ℕ) (first version : ℕ) (type : PktType)
    → length pkt ≡ 5
    → decode_fields pkt first version type [] ≡ err invalid_argument
unfolding decode_fields
cut_fields pkt first version type five = ground (arith, min_len-ge type, five)

cut_read : (first version : ℕ) (type : PktType) → read_fields first version type [] ≡ none
unfolding read_fields read_cid20
cut_read first version type = refl

same_type :
    (version first : ℕ)
    → long_type version first
      ≡ (elim (read_type first version) [ none ↦ err invalid_argument | some type ↦ ok type ])
unfolding long_type read_type
same_type version first = ground arith

-- For every packet, `ngtcp2_pkt_decode_hd_long` returns the fields that the layout reads and the number
-- of bytes that they take; it refuses the packet exactly when the layout cannot be read, and no read
-- goes past the end.
pub decode_hd_long-layout :
    (pkt : List ℕ) → All IsByte pkt → decode_hd_long pkt ≡ header_result pkt (read_hd_long pkt)
unfolding decode_hd_long byte_of advance get_uint32be read_hd_long
decode_hd_long-layout [] h = refl
decode_hd_long-layout (a ∷ []) h = refl
decode_hd_long-layout (a ∷ b ∷ []) h = refl
decode_hd_long-layout (a ∷ b ∷ c ∷ []) h = refl
decode_hd_long-layout (a ∷ b ∷ c ∷ d ∷ []) h = refl
decode_hd_long-layout (t ∷ a ∷ b ∷ c ∷ e ∷ []) h =
    let version = ((a * 256 + b) * 256 + c) * 256 + e in
    elim (Option-cases (read_type t version)) [
      | inl unknown ↦ ground (arith, unknown, same_type version t)
      | inr (type, is) ↦ ground (
        arith,
        is,
        same_type version t,
        cut_fields (t ∷ a ∷ b ∷ c ∷ e ∷ []) t version type refl,
        cut_read t version type,
      )
    ]
decode_hd_long-layout (t ∷ a ∷ b ∷ c ∷ e ∷ d ∷ x) h =
    let version = ((a * 256 + b) * 256 + c) * 256 + e in
    elim (Option-cases (read_type t version)) [
      | inl unknown ↦ ground (arith, unknown, same_type version t)
      | inr (type, is) ↦
          ground
            (arith, is, same_type version t, fields-layout t a b c e d x version type h.1.1.1.1.1.1)
    ]
