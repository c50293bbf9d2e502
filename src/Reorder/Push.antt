-- ===== src/Reorder/Push.antt =====
-- `ngtcp2_reorder_push` of lib/ngtcp2_reorder.c: what it stores and what it leaves as it is.
use zngtcp.Base.{
  get_elem-some, get_elem-drop, get_elem-take, ℕ, ◌+◌, ◌-◌, ◌≤◌, ◌<◌, ◌≡◌, refl, ap, ◌∙◌, ◌⊎◌, inl,
  inr, List, ◌∷◌, Bool, false, Bool-cases, none, some, length, length-take, get_elem?, take, drop,
  ltb, ◌==◌, arith,
}
use zngtcp.Reorder.{Entry, Pushed, behind, place}
use zngtcp.Reorder.Content.{IsSorted, byte_in, byte_at, byte_at-below}

abbrev pub IsHeld : List Entry → ℕ → Type 0
IsHeld es x = (b : ℕ) × (byte_at es x ≡ some b)

-- The bytes `from` to `upto` of `buf`, which starts at `begin`, go into the first gap at or behind `begin`: all
-- before are held, none of them is, and the gap ends there unless the buffer does. Nothing else
-- changes.
pub record Fills (es es' : List Entry) (begin last : ℕ) (buf : List ℕ) (nwrite : ℕ) : Type 0 where
  pub from : ℕ
  pub upto : ℕ
  pub starts : begin ≤ from
  pub grows : from < upto
  pub ends : upto ≤ last
  pub counts : from + nwrite ≡ upto
  pub before : (x : ℕ) → begin ≤ x → x < from → IsHeld es x
  pub empty : (x : ℕ) → from ≤ x → x < upto → byte_at es x ≡ none
  pub filled : (x : ℕ) → from ≤ x → x < upto → byte_at es' x ≡ get_elem? buf (x - begin)
  pub kept : (x : ℕ) → (x < from) ⊎ (upto ≤ x) → byte_at es' x ≡ byte_at es x
  pub closes : (upto ≡ last) ⊎ IsHeld es upto

abbrev pub Result : Bool → ℕ → List Entry → ℕ → ℕ → List ℕ → Pushed → Type 0
Result memory lo es begin last buf (Pushed.covered back) =
    (x : ℕ) → begin ≤ x → x < last → IsHeld es x
Result memory lo es begin last buf Pushed.no_memory = memory ≡ false
Result memory lo es begin last buf (Pushed.stored es' nwrite) =
    IsSorted lo es' × Fills es es' begin last buf nwrite

pub byte_at-front :
    (ent : Entry) (es : List Entry) (x : ℕ)
    → ent.begin ≤ x
    → x < ent.last
    → byte_at (ent ∷ es) x ≡ get_elem? ent.buf (x - ent.begin)
unfolding byte_at byte_in
byte_at-front ent es x h1 h2 = ground (arith, h1, h2)

pub byte_at-behind :
    (ent : Entry) (es : List Entry) (x : ℕ) → ent.last ≤ x → byte_at (ent ∷ es) x ≡ byte_at es x
unfolding byte_at
byte_at-behind ent es x h = ground (arith, h)

pub front-IsHeld :
    (ent : Entry) (es : List Entry) (x : ℕ)
    → ent.begin + length ent.buf ≡ ent.last
    → ent.begin ≤ x
    → x < ent.last
    → IsHeld (ent ∷ es) x
front-IsHeld ent es x e h1 h2 =
    let (b, found) = get_elem-some ent.buf (x - ent.begin) (omega (arith, e, h1, h2)) in
    (b, byte_at-front ent es x h1 h2 ∙ found)

pub behind-IsHeld :
    (ent : Entry) (es : List Entry) (x : ℕ) → ent.last ≤ x → IsHeld es x → IsHeld (ent ∷ es) x
behind-IsHeld ent es x h (b, e) = (b, byte_at-behind ent es x h ∙ e)

new_entry :
    (lo begin cut last : ℕ) (buf : List ℕ) (rest : List Entry) (new : Entry)
    → new.begin ≡ begin
    → new.last ≡ cut
    → new.buf ≡ take (cut - begin) buf
    → begin < cut
    → cut ≤ last
    → IsSorted cut rest
    → (cut ≡ last) ⊎ IsHeld rest cut
    → Fills rest (new ∷ rest) begin last buf (cut - begin)
unfolding byte_at byte_in
new_entry lo begin cut last buf rest new e1 e2 e3 grows h3 s closes = record {
  from = begin;
  upto = cut;
  starts = omega arith;
  grows = grows;
  ends = h3;
  counts = omega (arith, grows);
  before = λ x a b. absurd (omega (arith, a, b));
  empty = λ x a b. byte_at-below cut rest x s b;
  filled = λ x a b.
      ground (
        arith,
        e1,
        e2,
        e3,
        a,
        b,
        get_elem-take (cut - begin) buf (x - begin) (omega (arith, a, b)),
      );
  kept = λ x out. elim out [
    | inl low ↦
        ground (arith, e1, e2, low, grows, byte_at-below cut rest x s (omega (arith, low, grows)))
    | inr high ↦ ground (arith, e2, high)
  ];
  closes = closes;
}

module _ (memory owned : Bool) where
  -- A new entry in front of the rest of the list.
  pub place-Result :
      (lo begin cut last : ℕ) (buf : List ℕ) (rest : List Entry)
      → lo ≤ begin
      → begin ≤ cut
      → cut ≤ last
      → (begin < cut) ⊎ (cut ≡ last)
      → begin + length buf ≡ last
      → IsSorted cut rest
      → (cut ≡ last) ⊎ IsHeld rest cut
      → Result memory lo rest begin last buf (place memory owned begin cut buf rest)
  unfolding place IsSorted
  place-Result lo begin cut last buf rest h1 h2 h3 h4 h5 s closes =
      elim (Bool-cases (begin == cut)) [
        | inl same ↦ rw same (λ x a b. absurd (ground (arith, same, h4, a, b)))
        | inr differ ↦
            let grows : begin < cut = ground (arith, differ, h2) in
            elim (Bool-cases memory) [
              | inr full ↦ rw (differ, full) refl
              | inl m ↦
                  let new : Entry = record {
                    begin = begin;
                    last = cut;
                    buf = take (cut - begin) buf;
                    owned = owned;
                  } in
                  let size : begin + length (take (cut - begin) buf) ≡ cut =
                    omega (arith, length-take (cut - begin) buf, h2, h3, h5) in
                  rw (differ, m)
                    (
                      (h1, grows, size, s),
                      new_entry lo begin cut last buf rest new refl refl refl grows h3 s closes,
                    )
            ]
      ]

  pub behind-Result :
      (lo : ℕ) (ent : Entry) (es : List Entry) (begin last : ℕ) (buf : List ℕ) (p : Pushed)
      → lo ≤ ent.begin
      → ent.begin < ent.last
      → ent.begin + length ent.buf ≡ ent.last
      → ent.last ≤ begin
      → Result memory ent.last es begin last buf p
      → Result memory lo (ent ∷ es) begin last buf (behind ent p)
  unfolding behind IsSorted byte_at
  behind-Result lo ent es begin last buf (Pushed.covered back) h1 h2 h3 h4 r =
      λ x a b. behind-IsHeld ent es x (omega (arith, h4, a)) (r x a b)
  behind-Result lo ent es begin last buf Pushed.no_memory h1 h2 h3 h4 r = r
  behind-Result lo ent es begin last buf (Pushed.stored es' n) h1 h2 h3 h4 (sorted, f) = (
    (h1, h2, h3, sorted),
    record {
      from = f.from;
      upto = f.upto;
      starts = f.starts;
      grows = f.grows;
      ends = f.ends;
      counts = f.counts;
      before = λ x a b. behind-IsHeld ent es x (omega (arith, h4, a)) (f.before x a b);
      empty = λ x a b. byte_at-behind ent es x (omega (arith, h4, f.starts, a)) ∙ f.empty x a b;
      filled = λ x a b. byte_at-behind ent es' x (omega (arith, h4, f.starts, a)) ∙ f.filled x a b;
      kept = λ x out. ground (arith, f.kept x out);
      closes = elim f.closes [
        | inl e ↦ inl e
        | inr held ↦ inr (behind-IsHeld ent es f.upto (omega (arith, h4, f.starts, f.grows)) held)
      ];
    },
  )

  -- What is held already in front of the buffer's rest.
  pub widen-Result :
      (lo : ℕ) (es : List Entry) (begin start last : ℕ) (buf : List ℕ) (p : Pushed)
      → begin ≤ start
      → ((x : ℕ) → begin ≤ x → x < start → IsHeld es x)
      → Result memory lo es start last (drop (start - begin) buf) p
      → Result memory lo es begin last buf p
  widen-Result lo es begin start last buf (Pushed.covered back) h held r = λ x a b.
      elim (Bool-cases (ltb x start)) [
        | inl low ↦ held x a (ground (arith, low))
        | inr high ↦ r x (ground (arith, high)) b
      ]
  widen-Result lo es begin start last buf Pushed.no_memory h held r = r
  widen-Result lo es begin start last buf (Pushed.stored es' n) h held (sorted, f) = (
    sorted,
    record {
      from = f.from;
      upto = f.upto;
      grows = f.grows;
      ends = f.ends;
      counts = f.counts;
      empty = f.empty;
      kept = f.kept;
      closes = f.closes;
      starts = omega (arith, h, f.starts);
      before = λ x a b. elim (Bool-cases (ltb x start)) [
        | inl low ↦ held x a (ground (arith, low))
        | inr high ↦ f.before x (ground (arith, high)) b
      ];
      filled = λ x a b.
          let same : x - start + (start - begin) ≡ x - begin = omega (arith, h, f.starts, a) in
          f.filled x a b ∙ get_elem-drop (start - begin) buf (x - start) ∙ ap (get_elem? buf) same;
    },
  )
