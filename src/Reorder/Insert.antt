-- ===== src/Reorder/Insert.antt =====
-- The loop of `ngtcp2_reorder_push` in lib/ngtcp2_reorder.c, entry by entry.
use zngtcp.Base.{
  ℕ, ◌+◌, ◌-◌, ◌≤◌, ◌<◌, ◌≡◌, refl, inl, inr, List, [], ◌∷◌, Bool, Bool-cases, length, length-drop,
  drop, leb, arith,
}
use zngtcp.Reorder.{Entry, behind, insert}
use zngtcp.Reorder.Content.{IsSorted}
use zngtcp.Reorder.Push.{front-IsHeld, Result, place-Result, behind-Result, widen-Result}

module _ (memory owned : Bool) where
  -- The buffer starts in an entry and reaches over its end.
  overlap-Result :
      (lo begin last : ℕ) (buf : List ℕ) (ent : Entry) (es : List Entry)
      → lo ≤ ent.begin
      → ent.begin < ent.last
      → ent.begin + length ent.buf ≡ ent.last
      → ent.begin ≤ begin
      → begin < ent.last
      → Result memory ent.last es ent.last last
          (drop (ent.last - begin) buf)
          (insert memory owned ent.last last (drop (ent.last - begin) buf) es)
      → Result memory lo
          (ent ∷ es)
          begin
          last
          buf
          (behind ent (insert memory owned ent.last last (drop (ent.last - begin) buf) es))
  overlap-Result lo begin last buf ent es s1 s2 s3 start above rest =
      let cut = drop (ent.last - begin) buf in
      let p = insert memory owned ent.last last cut es in
      widen-Result memory owned lo (ent ∷ es) begin ent.last last buf (behind ent p)
        (omega (arith, above)) (λ x a b. front-IsHeld ent es x s3 (omega (arith, start, a)) b)
        (behind-Result memory owned lo ent es ent.last last cut p s1 s2 s3 (omega arith) rest)

  pub insert-Result :
      (lo begin last : ℕ) (buf : List ℕ) (es : List Entry)
      → IsSorted lo es
      → lo ≤ begin
      → begin ≤ last
      → begin + length buf ≡ last
      → Result memory lo es begin last buf (insert memory owned begin last buf es)
  unfolding insert IsSorted
  insert-Result lo begin last buf [] s h1 h2 h3 =
      place-Result memory owned lo begin last last buf [] h1 h2 (omega arith) (inr refl) h3 tt
        (inl refl)
  insert-Result lo begin last buf (ent ∷ es) (s1, s2, s3, s4) h1 h2 h3 =
      elim (Bool-cases (leb ent.last begin)) [
        | inl passed ↦
            let below : ent.last ≤ begin = ground (arith, passed) in
            rw (passed, Result)
              (behind-Result memory owned lo ent es begin last buf
                (insert memory owned begin last buf es) s1 s2 s3 below
                (insert-Result ent.last begin last buf es s4 below h2 h3))
        | inr reaches ↦
            let above : begin < ent.last = ground (arith, reaches) in
            elim (Bool-cases (leb last ent.begin)) [
              | inl in_front ↦
                  let before : last ≤ ent.begin = ground (arith, in_front) in
                  rw (reaches, in_front, Result)
                    (place-Result memory owned lo begin last last buf (ent ∷ es) h1 h2 (omega arith)
                      (inr refl) h3 (before, s2, s3, s4) (inl refl))
              | inr meets ↦
                  let meet : ent.begin < last = ground (arith, meets) in
                  elim (Bool-cases (leb ent.begin begin)) [
                    | inr gap ↦
                        let low : begin < ent.begin = ground (arith, gap) in
                        rw (reaches, meets, gap, Result)
                          (place-Result memory owned lo begin ent.begin last buf (ent ∷ es) h1
                            (omega (arith, low)) (omega (arith, meet)) (inl low) h3
                            (omega arith, s2, s3, s4)
                            (inr (front-IsHeld ent es ent.begin s3 (omega arith) s2)))
                    | inl inside ↦
                        let start : ent.begin ≤ begin = ground (arith, inside) in
                        elim (Bool-cases (leb last ent.last)) [
                          | inl all ↦
                              let ends : last ≤ ent.last = ground (arith, all) in
                              rw (reaches, meets, inside, all, Result)
                                (λ x a b.
                                  front-IsHeld ent es x s3 (omega (arith, start, a))
                                    (omega (arith, ends, b)))
                          | inr more ↦
                              let longer : ent.last < last = ground (arith, more) in
                              let cut = drop (ent.last - begin) buf in
                              let size : ent.last + length cut ≡ last =
                                omega
                                  (arith, length-drop (ent.last - begin) buf, h3, above, longer) in
                              rw (reaches, meets, inside, more, Result)
                                (overlap-Result lo begin last buf ent es s1 s2 s3 start above (
                                  insert-Result ent.last ent.last last cut es s4 (omega arith)
                                    (omega (arith, longer)) size))
                        ]
                  ]
            ]
      ]
