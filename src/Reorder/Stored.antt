-- ===== src/Reorder/Stored.antt =====
-- `ngtcp2_reorder_push` of lib/ngtcp2_reorder.c as a whole.
use zngtcp.Base.{
  ℕ, ◌+◌, ◌-◌, ◌%◌, ◌^◌, max, ◌≤◌, ◌<◌, ◌≡◌, refl, ◌⊎◌, inl, inr, List, [], ◌∷◌, ◌++◌, Bool, true,
  false, Bool-cases, length, length-drop, drop, ltb, leb, arith, ok,
}
use zngtcp.Reorder.{Pushed, insert, Reorder, settle, push}
use zngtcp.Reorder.Content.{IsSorted}
use zngtcp.Reorder.Push.{IsHeld, Fills, Result}
use zngtcp.Reorder.Insert.{insert-Result}

-- Either the buffer is given back, as all its bytes from the stream's offset on are held, or its
-- bytes fill the first gap, and the entry has the buffer.
abbrev pub Stores : Reorder → Reorder → ℕ → ℕ → List ℕ → Bool → ℕ → Type 0
Stores reorder new begin last buf owned nwrite =
    ((new.head ≡ reorder.head)
      × (nwrite ≡ 0)
      × ((x : ℕ) → begin ≤ x → x < last → IsHeld reorder.head x)
      × (back : List ℕ) × (new.released
          ≡ reorder.released ++ (record { buf = back; owned = owned } ∷ [])))
    ⊎ (Fills reorder.head new.head begin last buf nwrite × (new.released ≡ reorder.released))

settle-Stores :
    (reorder : Reorder) (owned : Bool) (begin last : ℕ) (buf : List ℕ) (p : Pushed)
    → IsSorted 0 reorder.head
    → Result true 0 reorder.head begin last buf p
    → (new : Reorder) × (nwrite : ℕ) × (settle reorder owned p ≡ ok (new, nwrite))
      × IsSorted 0 new.head
      × Stores reorder new begin last buf owned nwrite
unfolding settle
settle-Stores reorder owned begin last buf (Pushed.covered back) s r =
    (_, 0, refl, s, inl (refl, refl, r, back, refl))
settle-Stores reorder owned begin last buf Pushed.no_memory s r = absurd (cc)
settle-Stores reorder owned begin last buf (Pushed.stored es nwrite) s (sorted, fills) =
    (_, nwrite, refl, sorted, inr (fills, refl))

-- Given memory, and an offset that does not wrap around, a push keeps the entries sorted and apart.
-- Of the bytes at or behind `cont_offset` it stores those in the first gap, as many as `*pnwrite`
-- says, under the offsets that they were sent for; all bytes that were held before stay, and
-- nothing else is added. It gives the buffer back if there is no gap.
pub push-Stores :
    (reorder : Reorder) (buf : List ℕ) (offset cont_offset : ℕ) (owned : Bool)
    → IsSorted 0 reorder.head
    → offset + length buf < 2 ^ 64
    → (new : Reorder) × (nwrite : ℕ) × (push true reorder buf offset cont_offset owned
        ≡ ok (new, nwrite))
      × IsSorted 0 new.head
      × Stores reorder new
          (max offset cont_offset)
          (offset + length buf)
          (drop (cont_offset - offset) buf)
          owned
          nwrite
unfolding push
push-Stores reorder buf offset cont owned s h =
    let end : (offset + length buf) % 2 ^ 64 ≡ offset + length buf = omega (arith, h) in
    let no_wrap : ltb (offset + length buf) offset ≡ false = ground arith in
    elim (Bool-cases (leb (offset + length buf) cont)) [
      | inl old ↦
          rw (end, no_wrap, old)
            (settle-Stores reorder owned (max offset cont) (offset + length buf)
              (drop (cont - offset) buf) (Pushed.covered buf) s
              (λ x a b. absurd (ground (arith, old, a, b))))
      | inr new ↦ elim (Bool-cases (ltb offset cont)) [
        | inl cut ↦
            let start : max offset cont ≡ cont = ground (arith, cut) in
            let rest = drop (cont - offset) buf in
            rw (end, no_wrap, new, cut, start)
              (settle-Stores reorder owned cont (offset + length buf) rest
                (insert true owned cont (offset + length buf) rest reorder.head) s
                (insert-Result true owned 0 cont (offset + length buf) rest reorder.head s
                  (omega arith) (ground (arith, new))
                  (ground (arith, new, cut, length-drop (cont - offset) buf))))
        | inr whole ↦
            let start : max offset cont ≡ offset = ground (arith, whole) in
            let none_cut : cont - offset ≡ 0 = ground (arith, whole) in
            rw (end, no_wrap, new, whole, start, none_cut)
              (settle-Stores reorder owned offset (offset + length buf) buf
                (insert true owned offset (offset + length buf) buf reorder.head) s
                (insert-Result true owned 0 offset (offset + length buf) buf reorder.head s
                  (omega arith) (omega arith) refl))
      ]
    ]
