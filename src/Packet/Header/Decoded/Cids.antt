-- ===== src/Packet/Header/Decoded/Cids.antt =====
-- The connection IDs of a long header, as lib/ngtcp2_pkt.c decodes them, and the layout.
use zngtcp.Base.{
  ℕ, zero, suc, ◌+◌, ◌≤◌, ◌≡◌, refl, ap, ◌∙◌, List, [], ◌∷◌, Option, none, some, Outcome, ok, err,
  invalid_argument, leb, guard, ◌>>◌, length, drop, take, length-drop, length-take, arith,
}
use zngtcp.Packet.Header.Decode.{decode_cid}
use zngtcp.Packet.VersionCid.{slice}
use zngtcp.Packet.Header.Layout.{read_cid20}

-- What is counted of a connection ID that is read
abbrev pub cid_result : ℕ → ℕ → Option (List ℕ × List ℕ) → Outcome (ℕ × ℕ × List ℕ)
cid_result pktlen len none = err invalid_argument
cid_result pktlen len (some (cid, q)) = do
  guard (leb (len + length cid) pktlen) invalid_argument
  ok (length cid, len + length cid, q)

-- Behind `k` bytes, where more of the header than the connection ID is to come
pub decode_cid-layout :
    (k len d : ℕ) (x : List ℕ)
    → suc k ≤ len
    → decode_cid (k + suc (length x)) len (d ∷ x)
      ≡ cid_result (k + suc (length x)) len (read_cid20 (d ∷ x))
unfolding decode_cid read_cid20
decode_cid-layout k len d x lt =
    let step : drop (1 + d) (d ∷ x) ≡ drop d x = ground arith in
    ground (arith, step, length-take d x)

pub read_cid20-some :
    (d : ℕ) (x cid q : List ℕ)
    → read_cid20 (d ∷ x) ≡ some (cid, q)
    → (d ≤ length x) × ((cid ≡ take d x) × (q ≡ drop d x))
unfolding read_cid20
read_cid20-some d x cid q is = ground (arith, is)

pub cid-step :
    (pktlen k len d : ℕ) (x cid q : List ℕ)
    → pktlen ≡ k + suc (length x)
    → suc k ≤ len
    → read_cid20 (d ∷ x) ≡ some (cid, q)
    → decode_cid pktlen len (d ∷ x)
      ≡ (do guard (leb (len + d) pktlen) invalid_argument; ok (d, len + d, q))
cid-step pktlen k len d x cid q whole lt is =
    let (le, (taken, at)) = read_cid20-some d x cid q is in
    let size : length cid ≡ d = ap length taken ∙ (length-take d x ∙ omega (arith, le)) in
    rw (whole) (
      decode_cid-layout k len d x lt
      ∙ ap (cid_result (k + suc (length x)) len) is
      ∙ ap (λ n. do guard (leb (len + n) (k + suc (length x))) invalid_argument; ok (n, len + n, q))
          size)

-- The second pass reads the connection IDs again.
pub slice-dcid :
    (t a b c e d : ℕ) (x : List ℕ)
    → d ≤ length x
    → slice (t ∷ a ∷ b ∷ c ∷ e ∷ d ∷ x) 6 d ≡ ok (take d x)
unfolding slice
slice-dcid t a b c e d x le = ground arith

drop-suc : (n : ℕ) (p : List ℕ) → drop (suc n) p ≡ drop 1 (drop n p)
drop-suc zero p = refl
drop-suc (suc n) [] = refl
drop-suc (suc n) (b ∷ p) = drop-suc n p

drop-behind :
    (t a b c e d : ℕ) (x : List ℕ) → drop (7 + d) (t ∷ a ∷ b ∷ c ∷ e ∷ d ∷ x) ≡ drop (suc d) x
drop-behind t a b c e d x = ground arith

pub slice-scid :
    (t a b c e d s : ℕ) (x y : List ℕ)
    → drop d x ≡ s ∷ y
    → s ≤ length y
    → d ≤ length x
    → slice (t ∷ a ∷ b ∷ c ∷ e ∷ d ∷ x) (7 + d) s ≡ ok (take s y)
unfolding slice
slice-scid t a b c e d s x y next le le' =
    let at : drop (7 + d) (t ∷ a ∷ b ∷ c ∷ e ∷ d ∷ x) ≡ drop 1 (drop d x) =
      drop-behind t a b c e d x ∙ drop-suc d x in
    ground (arith, at, next, length-drop d x)
