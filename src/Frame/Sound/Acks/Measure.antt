-- ===== src/Frame/Sound/Acks/Measure.antt =====
-- The first pass of the decoder of ACK frames: the length of the frame.
use zngtcp.Base.{
  ℕ, suc, ◌+◌, ◌-◌, ◌*◌, ◌^◌, ◌≤◌, ◌<◌, ◌≡◌, refl, inl, inr, List, [], ◌∷◌, Option, none, some,
  Outcome, ok, err, frame_encoding, Option-cases, length, All, arith, ◌==◌,
}
use native.Mathlib.Decide.{dec_le}
use zngtcp.Conv.{IsByte}
use zngtcp.Conv.Read.{read_varint, value, rest, first_len, varint_cases, IsWhole}
use zngtcp.Frame.FrameType
use zngtcp.Frame.Cursor.{skip, measure}
use zngtcp.Frame.Layout.{◌>>=◌}
use zngtcp.Frame.Decode.Acks.{measure_ranges, measure_ack}
use zngtcp.Frame.Sound.Acks.Passing.{after, after_short, passed, after-IsByte, skip_all-after}
use zngtcp.Frame.Sound.Acks.Ecn.{ecn_end, skip_ecn-ecn_end}

skip_whole :
    (payloadlen len : ℕ) (p : List ℕ)
    → IsWhole p
    → len + first_len p ≤ payloadlen + 1
    → skip payloadlen len p ≡ ok (len + first_len p - 1, rest p)
unfolding skip rest
skip_whole payloadlen len p w h = ground arith

-- A length past the end of the payload is an error, whether or not the integer is whole.
skip_past :
    (payloadlen len : ℕ) (p : List ℕ)
    → 1 ≤ length p
    → All IsByte p
    → payloadlen + 1 < len + first_len p
    → skip payloadlen len p ≡ err frame_encoding
unfolding skip
skip_past payloadlen len p h bytes short = ground (arith, varint_cases p bytes)

measure_whole :
    (payloadlen len : ℕ) (p : List ℕ)
    → IsWhole p
    → len + first_len p ≤ payloadlen + 1
    → measure payloadlen len p ≡ ok (first_len p, len + first_len p - 1)
unfolding measure
measure_whole payloadlen len p w h = ground arith

measure_past :
    (payloadlen len : ℕ) (p : List ℕ)
    → 1 ≤ length p
    → All IsByte p
    → payloadlen + 1 < len + first_len p
    → measure payloadlen len p ≡ err frame_encoding
unfolding measure
measure_past payloadlen len p h bytes short = ground (arith, varint_cases p bytes)

-- Where the frame ends, by its fields alone: from the first range on, and from the start.
unfoldable pub ranges_end : ℕ → ℕ → List ℕ → Option (List ℕ)
ranges_end t count p = do
  (_, p1) ← read_varint p
  q ← after (count * 2) p1
  ecn_end (t == FrameType.ack_ecn) q

unfoldable pub ack_end : ℕ → List ℕ → Option (List ℕ)
ack_end t p = do
  (_, p1) ← read_varint p
  (_, p2) ← read_varint p1
  (count, p3) ← read_varint p2
  ranges_end t count p3

measure_ranges_rest :
    (t payloadlen len count : ℕ) (p : List ℕ)
    → len + first_len p + count * 2 ≤ payloadlen + 1
    → len + length p ≡ payloadlen + 1
    → count < 2 ^ 62
    → IsWhole p
    → measure_ranges t payloadlen len count p ≡ passed payloadlen (ranges_end t count p)
unfolding measure_ranges ranges_end
measure_ranges_rest t payloadlen len count p fits e small w =
    elim (Option-cases (after (count * 2) (rest p))) [
      | inl cut ↦ ground (
        arith,
        skip_whole payloadlen (len + count * 2) p w,
        skip_all-after (count * 2) payloadlen (len + count * 2 + first_len p - 1) (rest p) w.bytes,
      )
      | inr (q, ends) ↦ ground (
        arith,
        skip_whole payloadlen (len + count * 2) p w,
        skip_all-after (count * 2) payloadlen (len + count * 2 + first_len p - 1) (rest p) w.bytes,
        after-IsByte (count * 2) (rest p) q w.bytes ends,
        skip_ecn-ecn_end t payloadlen (payloadlen - length q) q,
      )
    ]

measure_ranges-ranges_end :
    (t payloadlen len count : ℕ) (p : List ℕ)
    → All IsByte p
    → len ≤ payloadlen
    → len + length p ≡ payloadlen + 1
    → count < 2 ^ 62
    → measure_ranges t payloadlen len count p ≡ passed payloadlen (ranges_end t count p)
measure_ranges-ranges_end t payloadlen len count p h le e small = elim (varint_cases p h) [
  | inl cut ↦
      unfold measure_ranges ranges_end in ground (arith, skip_past payloadlen (len + count * 2) p)
  | inr w ↦ elim (dec_le (len + first_len p + count * 2) (payloadlen + 1)) [
    | yes fits ↦ measure_ranges_rest t payloadlen len count p fits e small w
    | no over ↦
        unfold measure_ranges ranges_end in
        ground (
          arith,
          skip_past payloadlen (len + count * 2) p,
          after_short (count * 2) (rest p) w.bytes,
        )
  ]
]

abbrev pub measured_ack : ℕ → List ℕ → Option (List ℕ) → Outcome (ℕ × ℕ × ℕ)
measured_ack payloadlen p none = err frame_encoding
measured_ack payloadlen p (some s) =
    ok (value (rest (rest p)), first_len (rest (rest p)), payloadlen - length s)

ranges_end_short : (t count : ℕ) (p : List ℕ) → length p < 1 → ranges_end t count p ≡ none
unfolding ranges_end read_varint
ranges_end_short t count [] h = refl
ranges_end_short t count (b ∷ p) h = absurd (omega arith)

measure_ack_ranges :
    (t payloadlen : ℕ) (p : List ℕ)
    → All IsByte p
    → payloadlen ≡ suc (length p)
    → 5 ≤ payloadlen
    → IsWhole p
    → IsWhole (rest p)
    → IsWhole (rest (rest p))
    → measure_ack t payloadlen p ≡ measured_ack payloadlen p (ack_end t p)
unfolding measure_ack ack_end
measure_ack_ranges t payloadlen p h e five w1 w2 w3 =
    let len1 = 5 + first_len p - 1 in
    let len2 = len1 + first_len (rest p) - 1 in
    let len3 = len2 + first_len (rest (rest p)) - 1 in
    ground (
      arith,
      skip_whole payloadlen 5 p w1,
      skip_past payloadlen 5 p,
      skip_whole payloadlen len1 (rest p) w2,
      skip_past payloadlen len1 (rest p),
      measure_whole payloadlen len2 (rest (rest p)) w3,
      measure_past payloadlen len2 (rest (rest p)),
      measure_ranges-ranges_end t payloadlen len3 (value (rest (rest p))) (rest (rest (rest p)))
          w3.bytes,
      ranges_end_short t (value (rest (rest p))) (rest (rest (rest p))),
    )

pub measure_ack-ack_end :
    (t payloadlen : ℕ) (p : List ℕ)
    → All IsByte p
    → payloadlen ≡ suc (length p)
    → 5 ≤ payloadlen
    → measure_ack t payloadlen p ≡ measured_ack payloadlen p (ack_end t p)
unfolding measure_ack ack_end
measure_ack-ack_end t payloadlen p h e five = elim (varint_cases p h) [
  | inl cut ↦ ground (arith, skip_past payloadlen 5 p)
  | inr w1 ↦ elim (varint_cases (rest p) w1.bytes) [
    | inl cut ↦ ground (
      arith,
      skip_whole payloadlen 5 p w1,
      skip_past payloadlen 5 p,
      skip_past payloadlen (5 + first_len p - 1) (rest p),
    )
    | inr w2 ↦ elim (varint_cases (rest (rest p)) w2.bytes) [
      | inl cut ↦ ground (
        arith,
        skip_whole payloadlen 5 p w1,
        skip_past payloadlen 5 p,
        skip_whole payloadlen (5 + first_len p - 1) (rest p) w2,
        skip_past payloadlen (5 + first_len p - 1) (rest p),
        measure_past payloadlen (5 + first_len p - 1 + first_len (rest p) - 1) (rest (rest p)),
      )
      | inr w3 ↦ measure_ack_ranges t payloadlen p h e five w1 w2 w3
    ]
  ]
]
