-- ===== src/AckTracker/Insert.antt =====
-- `ngtcp2_acktr_add` of lib/ngtcp2_acktr.c.
use zngtcp.Base.{
  ℕ, suc, ◌+◌, ◌-◌, List, [], ◌∷◌, none, some, Bool, true, not, ◌||◌, Outcome, ok, ◌>>=◌, ◌>>◌,
  assert, ltb, leb, ◌==◌, length, take, if◌then◌else◌,
}
use zngtcp.AckTracker.{uint64_max, max_ent, AcktrEntry, AckTracker, new_entry}

abbrev pub raised : AcktrEntry → ℕ → ℕ → AcktrEntry
raised e pkt_num ts = record { pkt_num = pkt_num; len = suc e.len; tstamp = ts }

-- The entry found stands at the beginning.
unfoldable pub add_front : ℕ → ℕ → AcktrEntry → List AcktrEntry → Outcome (List AcktrEntry)
add_front pkt_num ts e es = do
  assert (not (e.pkt_num == pkt_num))
  ok (if e.pkt_num + 1 == pkt_num then raised e pkt_num ts ∷ es else new_entry pkt_num ts ∷ e ∷ es)

-- No entry is found: `e` is the last one.
unfoldable pub add_last : ℕ → ℕ → AcktrEntry → Outcome (List AcktrEntry)
add_last pkt_num ts e = do
  assert (leb (pkt_num + e.len) e.pkt_num)
  ok (
      if e.pkt_num == pkt_num + e.len
      then record e { len = suc e.len } ∷ []
      else e ∷ new_entry pkt_num ts ∷ [])

-- The entry `e` is found, behind `prev`.
unfoldable pub add_between :
    ℕ → ℕ → AcktrEntry → AcktrEntry → List AcktrEntry → Outcome (List AcktrEntry)
add_between pkt_num ts prev e es = do
  assert (not (e.pkt_num == pkt_num))
  assert (leb (pkt_num + prev.len) prev.pkt_num)
  let touches = prev.pkt_num == pkt_num + prev.len
  ok (
      if e.pkt_num + 1 == pkt_num
      then (if touches
          then record prev { len = prev.len + e.len + 1 } ∷ es
          else prev ∷ raised e pkt_num ts ∷ es)
      else if touches
      then record prev { len = suc prev.len } ∷ e ∷ es
      else prev ∷ new_entry pkt_num ts ∷ e ∷ es)

-- From `ngtcp2_ksl_lower_bound` to `ngtcp2_ksl_insert`
unfoldable pub add_ents : ℕ → ℕ → List AcktrEntry → Outcome (List AcktrEntry)
unfolding add_front add_last add_between
add_ents pkt_num ts [] = ok (new_entry pkt_num ts ∷ [])
add_ents pkt_num ts (e ∷ []) =
    if ltb pkt_num e.pkt_num then add_last pkt_num ts e else add_front pkt_num ts e []
add_ents pkt_num ts (e ∷ f ∷ es) =
    let behind = (do es' ← add_ents pkt_num ts (f ∷ es); ok (e ∷ es')) in
    if ltb pkt_num e.pkt_num
    then (if ltb pkt_num f.pkt_num then behind else add_between pkt_num ts e f es)
    else add_front pkt_num ts e (f ∷ es)

-- `acktr->max_pkt_num < pkt_num`
abbrev pub is_new_max : AckTracker → ℕ → Bool
is_new_max t pkt_num = elim t.max_pkt_num [ none ↦ true | some m ↦ ltb m pkt_num ]

-- The last entry goes where there are too many.
unfoldable pub within_max : List AcktrEntry → List AcktrEntry
within_max es = if ltb max_ent (length es) then take (length es - 1) es else es

-- The tracker with the new entries
abbrev pub with_ents : AckTracker → ℕ → Bool → ℕ → List AcktrEntry → AckTracker
with_ents t pkt_num active_ack ts es =
    let first = if t.first_unacked_ts == uint64_max then ts else t.first_unacked_ts in
    record t {
      ents = within_max es;
      active_ack = active_ack || t.active_ack;
      first_unacked_ts = if active_ack then first else t.first_unacked_ts;
      max_pkt_num = if is_new_max t pkt_num then some pkt_num else t.max_pkt_num;
      max_pkt_ts = if is_new_max t pkt_num then ts else t.max_pkt_ts;
    }

unfoldable pub acktr_add : AckTracker → ℕ → Bool → ℕ → Outcome AckTracker
unfolding within_max
acktr_add t pkt_num active_ack ts = do
  es ← add_ents pkt_num ts t.ents
  ok (with_ents t pkt_num active_ack ts es)
