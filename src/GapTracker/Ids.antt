-- ===== src/GapTracker/Ids.antt =====
-- The stream IDs of lib/ngtcp2_idtr.c.
pub mod Pushed
use zngtcp.Base.{
  ℕ, ◌+◌, ◌-◌, ◌/◌, ◌%◌, ◌^◌, max, min, ◌≤◌, ◌<◌, ◌≡◌, refl, ◌⊎◌, inl, inr, ◌↔◌, List, [], ◌∷◌,
  Bool, true, false, not, ◌&&◌, Bool-cases, ok, err, ◌>>=◌, stream_in_use, ltb, ◌==◌, arith,
}
use zngtcp.GapTracker.{
  uint64_max, Range, range_intersect, range_len, exclusive_compar, lower_bound, initialised, query,
  push, it_key, is_pushed, id_from_stream_id, idtr_open,
}
use zngtcp.GapTracker.Gaps.{covers, in_gaps, IsSorted, in_gaps-below}
use zngtcp.GapTracker.Cut.{push-in_gaps}
use zngtcp.GapTracker.Ids.Pushed.{IsTracker, Unseen, is_pushed-in_gaps}

only_id :
    (gaps : List Range) (id : ℕ)
    → in_gaps (initialised gaps) id ≡ false
    → Unseen (initialised gaps) id (id + 1)
only_id gaps id seen x a b = let same : id ≡ x = omega (arith, a, b) in rw same at seen

not_empty : (ks : List Range) (x : ℕ) → in_gaps ks x ≡ true → initialised ks ≡ ks
unfolding in_gaps initialised
not_empty [] x e = absurd (ground (arith, e))
not_empty (k ∷ ks) x e = refl

top_stays :
    (gaps : List Range) (id : ℕ)
    → IsTracker gaps
    → id + 1 < uint64_max
    → in_gaps (push gaps id 1) (uint64_max - 1) ≡ true
top_stays gaps id (s, top) h =
    let same = (push-in_gaps gaps id 1 s h).1 (uint64_max - 1) in ground (arith, same, top, h)

opened-IsTracker :
    (gaps : List Range) (id : ℕ) → IsTracker gaps → id + 1 < uint64_max → IsTracker (push gaps id 1)
opened-IsTracker gaps id t h =
    let top = top_stays gaps id t h in
    rw (not_empty (push gaps id 1) (uint64_max - 1) top) ((push-in_gaps gaps id 1 t.0 h).0, top)

opened-in_gaps :
    (gaps : List Range) (id : ℕ)
    → IsTracker gaps
    → id + 1 < uint64_max
    → (x : ℕ)
    → in_gaps (initialised (push gaps id 1)) x ≡ (in_gaps (initialised gaps) x && not (x == id))
opened-in_gaps gaps id t h x =
    let top = top_stays gaps id t h in
    rw (not_empty (push gaps id 1) (uint64_max - 1) top)
      (ground (arith, (push-in_gaps gaps id 1 t.0 h).1 x))

-- `ngtcp2_idtr_open` returns NGTCP2_ERR_STREAM_IN_USE exactly if the ID, without its two type bits, is
-- open already; else it opens that ID and no other, and the tracker stays valid.
pub idtr_open-in_gaps :
    (gaps : List Range) (stream_id : ℕ)
    → IsTracker gaps
    → stream_id < 2 ^ 62
    → ((idtr_open gaps stream_id ≡ err stream_in_use)
        × (in_gaps (initialised gaps) (stream_id / 4) ≡ false))
      ⊎ ((in_gaps (initialised gaps) (stream_id / 4) ≡ true)
          × (new : List Range) × (idtr_open gaps stream_id ≡ ok new)
          × IsTracker new
          × ((x : ℕ)
              → in_gaps (initialised new) x
                ≡ (in_gaps (initialised gaps) x && not (x == stream_id / 4))))
unfolding idtr_open id_from_stream_id
idtr_open-in_gaps gaps stream_id t h =
    let id = stream_id / 4 in
    let small : id + 1 < uint64_max = omega (arith, h) in
    let (used, looked, all) = is_pushed-in_gaps gaps id 1 t (omega arith) small in
    elim (Bool-cases used) [
      | inl e ↦ inl (ground (arith, looked, e), all.0 e id (omega arith) (omega arith))
      | inr e ↦ elim (Bool-cases (in_gaps (initialised gaps) id)) [
        | inr seen ↦ absurd (ground (arith, e, all.1 (only_id gaps id seen)))
        | inl unseen ↦ inr (
          unseen,
          push gaps id 1,
          ground (arith, looked, e),
          opened-IsTracker gaps id t small,
          opened-in_gaps gaps id t small,
        )
      ]
    ]
