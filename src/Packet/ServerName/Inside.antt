-- ===== src/Packet/ServerName/Inside.antt =====
-- Whatever bytes `ngtcp2_pkt_find_server_name` of lib/ngtcp2_pkt.c is given, it stays inside of them.
use zngtcp.Base.{
  ℕ, zero, suc, ◌+◌, ◌≤◌, ◌<◌, ◌≡◌, refl, ap, sym, ◌∙◌, ◌⊎◌, inl, inr, List, [], ◌∷◌, ◌++◌, Option,
  none, some, Bool, true, false, ◌&&◌, Bool-cases, Outcome, ok, err, fault, ltb, leb, ◌==◌, length,
  take, drop, length-drop, length-take, append_assoc, append-nil, arith, if◌then◌else◌,
}
use zngtcp.Conv.{peek, get_uint16be, get_uint24be}
use zngtcp.Frame.Cursor.{advance, bytes_at}
use zngtcp.Packet.ServerName.{
  ◌>>=◌, ◌>>◌, continue_if, step, trunc, skip8, skip16, entry_name, first_name, find_extension,
  find_in_hello, find_server_name,
}

-- `p` stands in `v`.
pub record Within (v p : List ℕ) : Type 0 where
  pub front : List ℕ
  pub behind : List ℕ
  pub whole : v ≡ front ++ (p ++ behind)

-- No result, or one that satisfies `P`; no read past the end, and no lack of rounds
abbrev pub Finds {ℓ} : {A : Type ℓ} → (A → Type 0) → Outcome (Option A) → Type 0
Finds P (ok (some a)) = P a
Finds P (ok none) = Unit
Finds P (err e) = ⊥
Finds P fault = ⊥

Finds-bind {ℓ κ} :
    {A : Type ℓ} {B : Type κ} (P : A → Type 0) (Q : B → Type 0) (m : Outcome (Option A))
    (f : A → Outcome (Option B))
    → Finds P m
    → ((a : A) → P a → Finds Q (f a))
    → Finds Q (m >>= f)
Finds-bind P Q (ok (some a)) f h k = k a h
Finds-bind P Q (ok none) f h k = tt
Finds-bind P Q (err e) f h k = absurd h
Finds-bind P Q fault f h k = absurd h

Finds-if {ℓ} :
    {B : Type ℓ} (Q : B → Type 0) (b : Bool) (m : Outcome (Option B))
    → (b ≡ true → Finds Q m)
    → Finds Q (continue_if b >> m)
Finds-if Q true m h = h refl
Finds-if Q false m h = tt

take-drop : (n : ℕ) (p : List ℕ) → take n p ++ drop n p ≡ p
take-drop zero p = refl
take-drop (suc n) [] = refl
take-drop (suc n) (b ∷ p) = ap (◌∷◌ b) (take-drop n p)

Within-drop : (n : ℕ) (v p : List ℕ) → Within v p → Within v (drop n p)
Within-drop n v p w = record {
  front = w.front ++ take n p;
  behind = w.behind;
  whole =
      w.whole
      ∙ ap (λ q. w.front ++ (q ++ w.behind)) (sym (take-drop n p))
      ∙ ap (λ q. w.front ++ q) (append_assoc (take n p) (drop n p) w.behind)
      ∙ sym (append_assoc w.front (take n p) (drop n p ++ w.behind));
}

Within-take : (n : ℕ) (v p : List ℕ) → Within v p → Within v (take n p)
Within-take n v p w = record {
  front = w.front;
  behind = drop n p ++ w.behind;
  whole =
      w.whole
      ∙ ap (λ q. w.front ++ (q ++ w.behind)) (sym (take-drop n p))
      ∙ ap (λ q. w.front ++ q) (append_assoc (take n p) (drop n p) w.behind);
}

Within-trunc : (n : ℕ) (v p : List ℕ) → Within v p → Within v (trunc n p)
unfolding trunc
Within-trunc n v p w = elim (Bool-cases (ltb n (length p))) [
  | inl longer ↦ rw longer (Within-take n v p w)
  | inr whole ↦ rw whole w
]

length-trunc : (n : ℕ) (p : List ℕ) → n ≤ length p → length (trunc n p) ≡ n
unfolding trunc
length-trunc n p le = ground (arith, length-take n p, le)

first_advance : (b : ℕ) (p : List ℕ) → Finds (λ q. q ≡ p) (step (advance 1 (b ∷ p)))
unfolding advance
first_advance b p = ground arith

-- A cursor that has moved on
abbrev Moved : List ℕ → List ℕ → List ℕ → Type 0
Moved v p q = Within v q × (length q < length p)

uint16-Within :
    (v p : List ℕ)
    → Within v p
    → 2 ≤ length p
    → Finds (λ r. Within v r.1 × (length r.1 + 2 ≡ length p)) (step (get_uint16be p))
unfolding get_uint16be
uint16-Within v [] w long = absurd (omega (arith, long))
uint16-Within v (a ∷ []) w long = absurd (omega (arith, long))
uint16-Within v (a ∷ b ∷ p) w long = (Within-drop 2 v (a ∷ b ∷ p) w, omega arith)

uint16-Moved :
    (v p : List ℕ) → Within v p → 2 ≤ length p → Finds (λ r. Moved v p r.1) (step (get_uint16be p))
unfolding get_uint16be
uint16-Moved v [] w long = absurd (omega (arith, long))
uint16-Moved v (a ∷ []) w long = absurd (omega (arith, long))
uint16-Moved v (a ∷ b ∷ p) w long = (Within-drop 2 v (a ∷ b ∷ p) w, omega arith)

advance-Within :
    (n : ℕ) (v p : List ℕ)
    → Within v p
    → n ≤ length p
    → Finds (λ q. Within v q × (length q + n ≡ length p)) (step (advance n p))
unfolding advance
advance-Within n v p w long =
    let enough : leb n (length p) ≡ true = ground (arith, long) in
    rw enough (Within-drop n v p w, omega (arith, length-drop n p, long))

peek-Finds : (p : List ℕ) → 1 ≤ length p → Finds (λ b. Unit {0}) (step (peek p))
unfolding peek
peek-Finds [] long = absurd (omega (arith, long))
peek-Finds (b ∷ p) long = tt

advance-Moved :
    (n : ℕ) (v p0 p : List ℕ)
    → Within v p
    → n ≤ length p
    → length p < length p0
    → Finds (Moved v p0) (step (advance n p))
unfolding advance
advance-Moved n v p0 p w long lt =
    let enough : leb n (length p) ≡ true = ground (arith, long) in
    rw enough (Within-drop n v p w, omega (arith, length-drop n p, lt))

skip16-Moved : (v p : List ℕ) → Within v p → Finds (Moved v p) (skip16 p)
unfolding skip16
skip16-Moved v p w = Finds-if (Moved v p) (leb 2 (length p)) _ λ long.
    Finds-bind (λ r. Moved v p r.1) (Moved v p) _ _ (uint16-Moved v p w (ground (arith, long)))
      λ (len, q) (w', lt).
        Finds-if (Moved v p) (leb len (length q)) _
          λ fits. advance-Moved len v p q w' (ground (arith, fits)) lt

skip8-Moved : (v p : List ℕ) → Within v p → Finds (Moved v p) (skip8 p)
unfolding skip8 peek
skip8-Moved v [] w = tt
skip8-Moved v (len ∷ p) w = Finds-if (Moved v (len ∷ p)) (leb 1 (suc (length p))) _ λ some_left.
    Finds-bind (λ q. q ≡ p) (Moved v (len ∷ p)) _ _ (first_advance len p)
      λ q at. Finds-if (Moved v (len ∷ p)) (leb len (length q)) _ λ fits.
        advance-Moved len v (len ∷ p) q (rw at (Within-drop 1 v (len ∷ p) w)) (ground (arith, fits))
          (omega (arith, ap length at))

entry_name-Within : (v p : List ℕ) → Within v p → 3 ≤ length p → Finds (Within v) (entry_name p)
unfolding entry_name peek bytes_at
entry_name-Within v [] w long = absurd (omega (arith, long))
entry_name-Within v (t ∷ p) w long =
    Finds-bind (λ q. q ≡ p) (Within v) _ _ (first_advance t p)
      λ q at. Finds-if (Within v) (t == 0) _ λ host.
        Finds-bind (λ r. Moved v q r.1) (Within v) _ _
          (uint16-Moved v q (rw at (Within-drop 1 v (t ∷ p) w)) (omega (arith, ap length at, long)))
          λ (len, name) (w', lt).
            Finds-if (Within v) (leb len (length name)) _
              λ fits. rw fits (Within-take len v name w')

first_name-Within : (v p : List ℕ) → Within v p → 2 ≤ length p → Finds (Within v) (first_name p)
unfolding first_name
first_name-Within v p w long =
    Finds-bind (λ r. Moved v p r.1) (Within v) _ _ (uint16-Moved v p w long)
      λ (len, extension) (w1, lt1).
        Finds-if (Within v) (leb len (length extension) && leb 2 len) _ λ fits1.
          let t1 = trunc len extension in
          let l1 : length t1 ≡ len = length-trunc len extension (ground (arith, fits1)) in
          Finds-bind (λ r. Moved v t1 r.1) (Within v) _ _
            (uint16-Moved v t1 (Within-trunc len v extension w1) (ground (arith, fits1, l1)))
            λ (len', list) (w2, lt2).
              Finds-if (Within v) (leb len' (length list) && leb 3 len') _ λ fits2.
                entry_name-Within v (trunc len' list) (Within-trunc len' v list w2)
                  (ground (arith, fits2, length-trunc len' list (ground (arith, fits2))))

find_extension-Within :
    (fuel : ℕ) (v p : List ℕ)
    → Within v p
    → length p < fuel
    → Finds (Within v) (find_extension fuel p)
unfolding find_extension
find_extension-Within zero v p w enough = absurd (omega (arith, enough))
find_extension-Within (suc fuel) v p w enough = Finds-if (Within v) (leb 4 (length p)) _ λ long.
    Finds-bind (λ r. Within v r.1 × (length r.1 + 2 ≡ length p)) (Within v) _ _
      (uint16-Within v p w (ground (arith, long)))
      λ (ext_type, q) (w', rest). elim (Bool-cases (ext_type == 0)) [
        | inl sni ↦ rw sni (first_name-Within v q w' (ground (arith, long, rest)))
        | inr other ↦ rw other (
            Finds-bind (Moved v q) (Within v) _ _ (skip16-Moved v q w')
              λ q' (w2, lt). find_extension-Within fuel v q' w2 (omega (arith, lt, rest, enough)))
      ]

find_in_hello-Within : (v p : List ℕ) → Within v p → Finds (Within v) (find_in_hello p)
unfolding find_in_hello
find_in_hello-Within v p w = Finds-if (Within v) (leb 2 (length p)) _ λ l0.
    Finds-bind (λ r. Moved v p r.1) (Within v) _ _ (uint16-Moved v p w (ground (arith, l0)))
      λ (ver, p1) (w1, _). Finds-if (Within v) (ver == 0x0303) _ λ tls.
        Finds-if (Within v) (leb 32 (length p1)) _ λ l1.
          Finds-bind (Moved v (0 ∷ p1)) (Within v) _ _
            (advance-Moved 32 v (0 ∷ p1) p1 w1 (ground (arith, l1)) (omega arith))
            λ p2 (w2, _). Finds-bind (Moved v p2) (Within v) _ _ (skip8-Moved v p2 w2) λ p3 (w3, _).
              Finds-bind (Moved v p3) (Within v) _ _ (skip16-Moved v p3 w3) λ p4 (w4, _).
                Finds-bind (Moved v p4) (Within v) _ _ (skip8-Moved v p4 w4) λ p5 (w5, _).
                  Finds-if (Within v) (leb 2 (length p5)) _ λ l5.
                    Finds-bind (λ r. Moved v p5 r.1) (Within v) _ _
                      (uint16-Moved v p5 w5 (ground (arith, l5)))
                      λ (len, p6) (w6, _).
                        find_extension-Within (suc (length (trunc len p6))) v (trunc len p6)
                          (Within-trunc len v p6 w6) (omega arith)

uint24-Within :
    (v p : List ℕ) → Within v p → 3 ≤ length p → Finds (λ r. Within v r.1) (step (get_uint24be p))
unfolding get_uint24be
uint24-Within v [] w long = absurd (omega (arith, long))
uint24-Within v (a ∷ []) w long = absurd (omega (arith, long))
uint24-Within v (a ∷ b ∷ []) w long = absurd (omega (arith, long))
uint24-Within v (a ∷ b ∷ c ∷ p) w long = Within-drop 3 v (a ∷ b ∷ c ∷ p) w

not_empty : (n : ℕ) → Finds {0} (λ t. Unit {0}) (step (if ltb 0 (suc n) then ok tt else fault))
not_empty n = ground arith

search-Within : (b : ℕ) (v : List ℕ) → Finds (Within (b ∷ v)) (find_server_name (b ∷ v))
unfolding find_server_name peek
search-Within b v =
    let whole : Within (b ∷ v) (b ∷ v) = record {
      front = [];
      behind = [];
      whole = sym (append-nil (b ∷ v));
    } in
    Finds-bind (λ t. Unit {0}) (Within (b ∷ v)) _ _ (not_empty (length v))
      λ t done. Finds-if (Within (b ∷ v)) (leb 4 (suc (length v))) _ λ long.
        Finds-bind (λ p. p ≡ v) (Within (b ∷ v)) _ _ (first_advance b v)
          λ p at. Finds-if (Within (b ∷ v)) (b == 1) _ λ hello.
            Finds-bind (λ r. Within (b ∷ v) r.1) (Within (b ∷ v)) _ _
              (uint24-Within (b ∷ v) p (rw at (Within-drop 1 (b ∷ v) (b ∷ v) whole))
                (ground (arith, long, ap length at)))
              λ (msglen, q) w.
                find_in_hello-Within (b ∷ v) (trunc msglen q) (Within-trunc msglen (b ∷ v) q w)

Finds-cases {ℓ} :
    {A : Type ℓ} (P : A → Type 0) (m : Outcome (Option A))
    → Finds P m
    → (m ≡ ok none) ⊎ ((a : A) × (m ≡ ok (some a)) × P a)
Finds-cases P (ok none) h = inl refl
Finds-cases P (ok (some a)) h = inr (a, refl, h)
Finds-cases P (err e) h = absurd h
Finds-cases P fault h = absurd h

-- Whatever bytes come, `ngtcp2_pkt_find_server_name` ends: it finds nothing, or a name that stands in
-- these bytes. It reads nothing past their end, and the rounds of the model are enough.
pub find_server_name-Within :
    (b : ℕ) (v : List ℕ)
    → (find_server_name (b ∷ v) ≡ ok none)
      ⊎ ((name : List ℕ) × (find_server_name (b ∷ v) ≡ ok (some name)) × Within (b ∷ v) name)
find_server_name-Within b v = Finds-cases (Within (b ∷ v)) _ (search-Within b v)
