-- ===== src/Frame/Sound/Acks/Ecn.antt =====
-- The ECN counts at the end of an ACK_ECN frame.
use zngtcp.Base.{
  ℕ, ◌+◌, ◌≤◌, ◌≡◌, refl, ◌⊎◌, inl, inr, Bool, true, false, List, Option, none, some, length, All,
  arith, ◌==◌, if◌then◌else◌,
}
use zngtcp.Conv.{IsByte}
use zngtcp.Conv.Read.{value, rest, in_buffer, varint_cases}
use zngtcp.Frame.{Ecn}
use zngtcp.Frame.FrameType
use zngtcp.Frame.Layout.{read_ecn}
use zngtcp.Frame.Decode.Acks.{skip_ecn, get_ecn}
use zngtcp.Frame.Sound.Acks.Passing.{after, after_short, passed, skip_all-after}

-- The end of the optional counts.
unfoldable pub ecn_end : Bool → List ℕ → Option (List ℕ)
unfolding after
ecn_end present q = if present then after 3 q else some q

pub ecn_end-read_ecn :
    (present : Bool) (q : List ℕ)
    → All IsByte q
    → ((ecn_end present q ≡ none) × (read_ecn present q ≡ none))
      ⊎ ((r : List ℕ) × (ecn : Option Ecn) × (ecn_end present q ≡ some r)
          × (length r ≤ length q)
          × (read_ecn present q ≡ some (ecn, r)))
unfolding ecn_end read_ecn
ecn_end-read_ecn false q h = inr (q, none, refl, omega arith, refl)
ecn_end-read_ecn true q h = elim (varint_cases q h) [
  | inl cut ↦ inl (ground arith)
  | inr w ↦ elim (varint_cases (rest q) w.bytes) [
    | inl cut ↦ inl (ground arith)
    | inr w' ↦ elim (varint_cases (rest (rest q)) w'.bytes) [
      | inl cut ↦ inl (ground arith)
      | inr w'' ↦ inr (
        rest (rest (rest q)),
        some (record { ect0 = value q; ect1 = value (rest q); ce = value (rest (rest q)) }),
        ground arith,
        omega arith,
        ground arith,
      )
    ]
  ]
]

pub skip_ecn-ecn_end :
    (t payloadlen len : ℕ) (q : List ℕ)
    → All IsByte q
    → len + length q ≡ payloadlen
    → skip_ecn t payloadlen len q ≡ passed payloadlen (ecn_end (t == FrameType.ack_ecn) q)
unfolding skip_ecn ecn_end
skip_ecn-ecn_end t payloadlen len q h e =
    ground (arith, after_short 3 q h, skip_all-after 3 payloadlen (len + 3) q h)

pub get_ecn-read_ecn :
    (t : ℕ) (q : List ℕ)
    → All IsByte q
    → get_ecn t q ≡ in_buffer (read_ecn (t == FrameType.ack_ecn) q)
unfolding get_ecn read_ecn
get_ecn-read_ecn t q h =
    ground (arith, varint_cases q h, varint_cases (rest q), varint_cases (rest (rest q)))
