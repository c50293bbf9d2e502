-- ===== src/RingBuf/Order.antt =====
-- The elements of the ring buffer of lib/ngtcp2_ringbuf.c as a sequence.
use native.Mathlib.Nat.{mod-lt, mod-eq_of_lt, mod-add-mod, add-mod_right}
use zngtcp.Base.{
  ℕ, suc, ◌+◌, ◌-◌, ◌%◌, ◌≤◌, ◌<◌, min, ◌≡◌, ◌≢◌, sym, ap, ◌∙◌, Bool-cases, inl, inr, ok, ltb, ◌==◌,
  arith, if◌then◌else◌,
}
use zngtcp.RingBuf.{RingBuf, push_front, push_back, get}

pub record IsValid (rb : RingBuf) : Type 0 where
  pub first_lt : rb.first < rb.mask + 1
  pub len_le : rb.len ≤ rb.mask + 1

moves : (a k m : ℕ) → a < m → 1 ≤ k → k < m → (a + k) % m ≢ a
moves a k m h1 h2 h3 e = elim (Bool-cases (ltb (a + k) m)) [
  | inl below ↦ omega (arith, e, h2, mod-eq_of_lt {n = a + k} {m = m} (ground (arith, below)))
  | inr above ↦
      let over : a + k - m + m ≡ a + k = ground (arith, above) in
      let turned : (a + k) % m ≡ (a + k - m) % m =
        sym (ap (λ x. x % m) over) ∙ add-mod_right (a + k - m) m in
      omega (
        arith,
        e,
        h1,
        h3,
        turned,
        over,
        mod-eq_of_lt {n = a + k - m} {m = m} (omega (arith, h1, h3, over)),
      )
]

turn :
    (first mask i : ℕ)
    → ((first + mask) % (mask + 1) + suc i) % (mask + 1) ≡ (first + i) % (mask + 1)
turn first mask i =
    let sum : first + mask + suc i ≡ first + i + (mask + 1) = omega arith in
    mod-add-mod (first + mask) (mask + 1) (suc i)
    ∙ ap (λ x. x % (mask + 1)) sum
    ∙ add-mod_right (first + i) (mask + 1)

-- The slot that `ngtcp2_ringbuf_push_front` returns is that of element 0 of the new buffer. The
-- elements that were there, except for the last of a full buffer, come behind it, each in its slot,
-- and no other of them has the slot that is returned.
pub push_front-get :
    (rb : RingBuf)
    → IsValid rb
    → IsValid (push_front rb).0
      × (get (push_front rb).0 0 ≡ ok (push_front rb).1)
      × ((push_front rb).0.len ≡ min (rb.len + 1) (rb.mask + 1))
      × ((i : ℕ)
          → suc i < (push_front rb).0.len
          → (slot : ℕ) × (get (push_front rb).0 (suc i) ≡ ok slot)
            × (get rb i ≡ ok slot)
            × (slot ≢ (push_front rb).1))
unfolding push_front get
push_front-get rb v =
    let cap = rb.mask + 1 in
    let first = (rb.first + rb.mask) % cap in
    let below : first < cap = mod-lt (rb.first + rb.mask) (omega arith) in
    let len = if ltb rb.len cap then suc rb.len else rb.len in
    let size : len ≡ min (rb.len + 1) cap = ground (arith, v.len_le) in
    let no_step : first + 0 ≡ first = omega arith in
    let start : (first + 0) % cap ≡ first =
      ap (λ x. x % cap) no_step ∙ mod-eq_of_lt {n = first} {m = cap} below in
    (
      record { first_lt = below; len_le = omega (arith, size) },
      ground (arith, size, start),
      size,
      λ i h. (
        (rb.first + i) % cap,
        ground (arith, h, turn rb.first rb.mask i),
        ground (arith, h, size, v.len_le),
        λ e.
            moves first (suc i) cap below (omega arith) (omega (arith, h, size))
              (turn rb.first rb.mask i ∙ e),
      ),
    )

differ :
    (first i len cap : ℕ) → 1 ≤ cap → i < len → len < cap → (first + i) % cap ≢ (first + len) % cap
differ first i len cap h1 h2 h3 e =
    let a = (first + i) % cap in
    let sum : first + i + (len - i) ≡ first + len = omega (arith, h2) in
    let there : (a + (len - i)) % cap ≡ (first + len) % cap =
      mod-add-mod (first + i) cap (len - i) ∙ ap (λ x. x % cap) sum in
    moves a (len - i) cap (mod-lt (first + i) h1) (omega (arith, h2)) (omega (arith, h2, h3))
      (there ∙ sym e)

-- The slot that `ngtcp2_ringbuf_push_back` returns is that of the last element of the new buffer. The
-- elements that were there, except for the first of a full buffer, stand before it in their order and
-- their slots, and none of them has the slot that is returned.
pub push_back-get :
    (rb : RingBuf)
    → IsValid rb
    → IsValid (push_back rb).0
      × ((push_back rb).0.len ≡ min (rb.len + 1) (rb.mask + 1))
      × (get (push_back rb).0 ((push_back rb).0.len - 1) ≡ ok (push_back rb).1)
      × ((i : ℕ)
          → suc i < (push_back rb).0.len
          → (slot : ℕ) × (get (push_back rb).0 i ≡ ok slot)
            × (get rb (i + (rb.len + 1 - (push_back rb).0.len)) ≡ ok slot)
            × (slot ≢ (push_back rb).1))
unfolding push_back get
push_back-get rb v =
    let cap = rb.mask + 1 in
    elim (Bool-cases (rb.len == cap)) [
      | inr room ↦
          let lt : rb.len < cap = ground (arith, room, v.len_le) in
          rw room (
            record { first_lt = v.first_lt; len_le = omega (arith, lt) },
            omega (arith, lt),
            ground arith,
            λ i h. (
              (rb.first + i) % cap,
              ground (arith, h),
              ground (arith, h),
              differ rb.first i rb.len cap (omega arith) (omega (arith, h)) lt,
            ),
          )
      | inl all ↦
          let e : rb.len ≡ cap = ground (arith, all) in
          let next = (rb.first + 1) % cap in
          let shift : (i : ℕ) → (next + i) % cap ≡ (rb.first + (i + 1)) % cap = λ i.
            let sum : rb.first + 1 + i ≡ rb.first + (i + 1) = omega arith in
            mod-add-mod (rb.first + 1) cap i ∙ ap (λ x. x % cap) sum in
          let round : (rb.first + rb.len) % cap ≡ rb.first =
            ap (λ n. (rb.first + n) % cap) e
            ∙ add-mod_right rb.first cap
            ∙ mod-eq_of_lt {n = rb.first} {m = cap} v.first_lt in
          let last : rb.len - 1 + 1 ≡ rb.len = omega (arith, e) in
          rw all (
            record { first_lt = mod-lt (rb.first + 1) (omega arith); len_le = v.len_le },
            omega (arith, e),
            ground (arith, e, shift (rb.len - 1), last),
            λ i h. (
              (next + i) % cap,
              ground (arith, h),
              ground (arith, h, shift i),
              λ same.
                  moves rb.first (i + 1) cap v.first_lt (omega arith) (omega (arith, h, e))
                    (sym (shift i) ∙ same ∙ round),
            ),
          )
    ]
