-- ===== src/Frame/Sound/Acks/Whole.antt =====
-- The decoder of ACK frames returns what the layout says.
use zngtcp.Base.{ℕ, ◌*◌, ◌≤◌, ◌≡◌, refl, inl, inr, List, ◌∷◌, length, All, arith, ◌==◌}
use native.Mathlib.Decide.{dec_le}
use zngtcp.Conv.{IsByte}
use zngtcp.Conv.Read.{read_varint, value, rest, varint_cases, IsWhole}
use zngtcp.Frame.FrameType
use zngtcp.Frame.Layout.{result, read_ack}
use zngtcp.Frame.Decode.Acks.{decode_ack_frame}
use zngtcp.Frame.Sound.Acks.Passing.{after-IsByte, read_ranges-after}
use zngtcp.Frame.Sound.Acks.Ranges.{ranges_kept}
use zngtcp.Frame.Sound.Acks.Ecn.{ecn_end-read_ecn, get_ecn-read_ecn}
use zngtcp.Frame.Sound.Acks.Measure.{ranges_end, ack_end, measure_ack-ack_end}

-- The fields up to the first range are whole.
ack-layout_ranges :
    (t : ℕ) (p : List ℕ)
    → All IsByte p
    → 5 ≤ length (t ∷ p)
    → IsWhole p
    → IsWhole (rest p)
    → IsWhole (rest (rest p))
    → IsWhole (rest (rest (rest p)))
    → decode_ack_frame (t ∷ p) ≡ result (t ∷ p) (read_ack t p)
unfolding decode_ack_frame read_ack rest ack_end ranges_end
ack-layout_ranges t p h five w1 w2 w3 w4 =
    let count = value (rest (rest p)) in
    let q = rest (rest (rest (rest p))) in
    let first = measure_ack-ack_end t (length (t ∷ p)) p h refl five in
    elim (read_ranges-after count q w4.bytes) [
      | inl (ends, unread) ↦ ground arith
      | inr (r, ranges, ends, reads, counted) ↦
          let (bytes, shorter) = after-IsByte (count * 2) q r w4.bytes ends in
          let (m, kept, passed) = ranges_kept count q ranges r w4.bytes reads in
          elim (ecn_end-read_ecn (t == FrameType.ack_ecn) r bytes) [
            | inl (cut, unread) ↦ ground arith
            | inr (s, ecn, end, le, reads') ↦ ground (arith, get_ecn-read_ecn t r bytes)
          ]
    ]

pub ack-layout :
    (t : ℕ) (p : List ℕ) → All IsByte p → decode_ack_frame (t ∷ p) ≡ result (t ∷ p) (read_ack t p)
unfolding decode_ack_frame read_varint read_ack ack_end ranges_end
ack-layout t p h = elim (dec_le 5 (length (t ∷ p))) [
  | no short ↦ ground (
    arith,
    varint_cases p h,
    varint_cases (rest p),
    varint_cases (rest (rest p)),
    varint_cases (rest (rest (rest p))),
  )
  | yes five ↦
      let first = measure_ack-ack_end t (length (t ∷ p)) p h refl five in
      elim (varint_cases p h) [
        | inl cut ↦ ground arith
        | inr w1 ↦ elim (varint_cases (rest p) w1.bytes) [
          | inl cut ↦ ground arith
          | inr w2 ↦ elim (varint_cases (rest (rest p)) w2.bytes) [
            | inl cut ↦ ground arith
            | inr w3 ↦ elim (varint_cases (rest (rest (rest p))) w3.bytes) [
              | inl cut ↦ ground arith
              | inr w4 ↦ ack-layout_ranges t p h five w1 w2 w3 w4
            ]
          ]
        ]
      ]
]
