-- ===== src/AckTracker/Passed.antt =====
-- The loops of `ngtcp2_acktr_recv_ack` in lib/ngtcp2_acktr.c pass no ACK that is acknowledged.
use zngtcp.Base.{
  ℕ, zero, suc, ◌+◌, ◌-◌, ◌≤◌, ◌<◌, ◌≡◌, refl, inl, inr, List, [], ◌∷◌, Option, none, some, false,
  ◌&&◌, ◌||◌, Bool-cases, leb, take, drop, get_elem?, All, All-map, All-take, All-zip, arith,
  if◌then◌else◌,
}
use mathlib.Core.Path.{subst}
use zngtcp.Frame.{Ack, AckRange}
use zngtcp.AckTracker.{AckEntry, sent_before, match_ranges, shifted, acked_index}
use zngtcp.AckTracker.Acknowledged.{acknowledged, in_ranges}

-- From the latest ACK on, the numbers of the packets that they were sent in do not rise.
abbrev pub AreDescending : List AckEntry → Type 0
AreDescending [] = Unit
AreDescending (a ∷ acks) = All (λ b. b.pkt_num ≤ a.pkt_num) acks × AreDescending acks

-- The ACKs before the one that is found
abbrev pub passed : Option ℕ → List AckEntry → List AckEntry
passed o acks = elim o [ none ↦ acks | some j ↦ take j acks ]

AreDescending-drop :
    (k : ℕ) (acks : List AckEntry) → AreDescending acks → AreDescending (drop k acks)
AreDescending-drop zero acks d = d
AreDescending-drop (suc k) [] d = tt
AreDescending-drop (suc k) (a ∷ acks) d = AreDescending-drop k acks d.1

below_found :
    (k : ℕ) (acks : List AckEntry) (a : AckEntry)
    → AreDescending acks
    → get_elem? acks k ≡ some a
    → All (λ b. b.pkt_num ≤ a.pkt_num) (drop k acks)
below_found k [] a d at = absurd (ground (arith, at))
below_found zero (b ∷ acks) a d at =
    let same : b.pkt_num ≡ a.pkt_num = ground (arith, at) in
    (omega (arith, same), All-map _ _ acks (λ c le. omega (arith, le, same)) d.0)
below_found (suc k) (b ∷ acks) a d at = below_found k acks a d.1 at

-- The ACKs that `sent_before` passes
passed-over :
    (n : ℕ) (acks : List AckEntry) → All (λ a. n < a.pkt_num) (take (sent_before n acks) acks)
unfolding sent_before
passed-over n [] = tt
passed-over n (a ∷ acks) = elim (Bool-cases (leb a.pkt_num n)) [
  | inl found ↦ rw found tt
  | inr next ↦ rw next (ground (arith, next), passed-over n acks)
]

take-all :
    (n : ℕ) (acks : List AckEntry)
    → get_elem? acks (sent_before n acks) ≡ none
    → take (sent_before n acks) acks ≡ acks
unfolding sent_before
take-all n [] at = refl
take-all n (a ∷ acks) at = elim (Bool-cases (leb a.pkt_num n)) [
  | inl found ↦ absurd (ground (arith, found, at))
  | inr next ↦ ground (arith, next, take-all n acks (ground (arith, next, at)))
]

passed-shifted :
    (P : AckEntry → Type 0) (k : ℕ) (o : Option ℕ) (acks : List AckEntry)
    → All P (take k acks)
    → All P (passed o (drop k acks))
    → All P (passed (shifted k o) acks)
passed-shifted P zero none acks before behind = behind
passed-shifted P zero (some j) acks before behind =
    let same : j ≡ 0 + j = omega arith in subst (λ n. All P (take n acks)) same behind
passed-shifted P (suc k) none [] before behind = tt
passed-shifted P (suc k) (some j) [] before behind =
    let same : suc (k + j) ≡ suc k + j = omega arith in subst (λ n. All P (take n [])) same tt
passed-shifted P (suc k) none (a ∷ acks) before behind =
    (before.0, passed-shifted P k none acks before.1 behind)
passed-shifted P (suc k) (some j) (a ∷ acks) before behind =
    let same : suc (k + j) ≡ suc k + j = omega arith in
    subst (λ n. All P (take n (a ∷ acks))) same
      (before.0, passed-shifted P k (some j) acks before.1 behind)

in_ranges-above : (n last : ℕ) (rs : List AckRange) → last < n → in_ranges n last rs ≡ false
unfolding in_ranges
in_ranges-above n last [] over = refl
in_ranges-above n last (r ∷ rs) over =
    let largest = last - (r.gap + 2) in
    let rest = in_ranges-above n (largest - r.len) rs (omega (arith, over)) in
    ground (arith, over, rest)

All-passed :
    (P : AckEntry → Type 0) (o : Option ℕ) (acks : List AckEntry)
    → All P acks
    → All P (passed o acks)
All-passed P none acks h = h
All-passed P (some j) acks h = All-take P j acks h

-- The range from `smallest` to `largest` and those below it do not acknowledge the packet of `a`.
abbrev IsUnnamed : ℕ → ℕ → List AckRange → AckEntry → Type 0
IsUnnamed largest smallest rs a =
    ((leb a.pkt_num largest && leb smallest a.pkt_num) || in_ranges a.pkt_num smallest rs) ≡ false

module _ (largest smallest : ℕ) (rs : List AckRange) (acks : List AckEntry) (later : Option ℕ)
    (d : AreDescending acks) (le : smallest ≤ largest)
    (rest : All
      (λ a. in_ranges a.pkt_num smallest rs ≡ false)
      (passed later (drop (sent_before largest acks) acks))) where
  before : All (IsUnnamed largest smallest rs) (take (sent_before largest acks) acks)
  before =
      All-map (λ a. largest < a.pkt_num) (IsUnnamed largest smallest rs)
        (take (sent_before largest acks) acks)
        (λ a over.
          let above = in_ranges-above a.pkt_num smallest rs (omega (arith, over, le)) in
          ground (arith, over, above))
        (passed-over largest acks)

  behind :
      (a : AckEntry)
      → get_elem? acks (sent_before largest acks) ≡ some a
      → leb smallest a.pkt_num ≡ false
      → All (IsUnnamed largest smallest rs) (passed later (drop (sent_before largest acks) acks))
  behind a at low =
      let older = drop (sent_before largest acks) acks in
      let under : All (λ b. b.pkt_num ≤ a.pkt_num) (passed later older) =
        All-passed (λ b. b.pkt_num ≤ a.pkt_num) later older
          (below_found (sent_before largest acks) acks a d at) in
      All-map (λ b. (b.pkt_num ≤ a.pkt_num) × (in_ranges b.pkt_num smallest rs ≡ false))
        (IsUnnamed largest smallest rs) (passed later older) (λ b h. ground (arith, low, h.0, h.1))
        (All-zip _ _ (passed later older) under rest)

  one_range-passed :
      (o : Option AckEntry)
      → get_elem? acks (sent_before largest acks) ≡ o
      → All (IsUnnamed largest smallest rs) (
          passed
            (elim o as (λ x. Option ℕ) [
              | none ↦ none
              | some a ↦
                  if leb smallest a.pkt_num
                  then some (sent_before largest acks)
                  else shifted (sent_before largest acks) later
            ])
            acks)
  one_range-passed none at =
      subst (All (IsUnnamed largest smallest rs)) (take-all largest acks at) before
  one_range-passed (some a) at = elim (Bool-cases (leb smallest a.pkt_num)) [
    | inl here ↦ rw here before
    | inr low ↦ rw low (
        passed-shifted (IsUnnamed largest smallest rs) (sent_before largest acks) later acks before
          (behind a at low))
  ]

unranged : (acks : List AckEntry) → All (λ a. false ≡ false) acks
unranged [] = tt
unranged (a ∷ acks) = (refl, unranged acks)

match_ranges-passed :
    (min : ℕ) (rs : List AckRange) (acks : List AckEntry)
    → AreDescending acks
    → All (λ a. in_ranges a.pkt_num min rs ≡ false) (passed (match_ranges min rs acks) acks)
unfolding match_ranges in_ranges
match_ranges-passed min [] acks d = unranged acks
match_ranges-passed min (r ∷ rs) acks d =
    let largest = min - (r.gap + 2) in
    let smallest = largest - r.len in
    let k = sent_before largest acks in
    one_range-passed largest smallest rs acks (match_ranges smallest rs (drop k acks)) d
      (omega arith) (match_ranges-passed smallest rs (drop k acks) (AreDescending-drop k acks d))
      (get_elem? acks k) refl

-- None of the ACKs before the one that is found is acknowledged, and none at all if there is none.
pub acked_index-passed :
    (acks : List AckEntry) (fr : Ack)
    → AreDescending acks
    → All (λ a. acknowledged a.pkt_num fr ≡ false) (passed (acked_index acks fr) acks)
unfolding acked_index acknowledged
acked_index-passed acks fr d =
    let smallest = fr.largest_ack - fr.first_ack_range in
    let k = sent_before fr.largest_ack acks in
    one_range-passed fr.largest_ack smallest fr.ranges acks
      (match_ranges smallest fr.ranges (drop k acks)) d (omega arith)
      (match_ranges-passed smallest fr.ranges (drop k acks) (AreDescending-drop k acks d))
      (get_elem? acks k) refl
