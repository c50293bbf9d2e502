-- ===== src/Reorder.antt =====
-- lib/ngtcp2_reorder.c: the buffer of the bytes that arrived before their turn. The linked list is a
-- list; a buffer is the list of the bytes between its `pos` and its `last`. Calls of the `release`
-- callback are recorded in the order of the calls, and whether `ngtcp2_mem_malloc` gives memory is
-- an argument.
pub mod Content
pub mod Push
pub mod Insert
pub mod Stored
pub mod Consume
pub mod Pop
pub mod Examples
use zngtcp.Base.{
  ℕ, ◌+◌, ◌-◌, ◌%◌, ◌^◌, List, [], ◌∷◌, ◌++◌, Bool, true, false, not, Option, none, some, Outcome,
  ok, err, fault, ◌>>=◌, ◌>>◌, assert, frame_encoding, nomem, ltb, leb, ◌==◌, length, take, drop,
  if◌then◌else◌,
}

-- `range.begin`, `range.end`, `buf` and `allocator_owned`
pub record Entry : Type 0 where
  pub begin : ℕ
  pub last : ℕ
  pub buf : List ℕ
  pub owned : Bool

-- A buffer that is given back, and whether an allocator owns it.
pub record Released : Type 0 where
  pub buf : List ℕ
  pub owned : Bool

pub record Reorder : Type 0 where
  pub head : List Entry
  pub released : List Released

unfoldable pub init : Reorder
init = record { head = []; released = [] }

unfoldable pub release_entry : Entry → Released
release_entry ent = record { buf = ent.buf; owned = ent.owned }

unfoldable pub release_all : List Entry → List Released
unfolding release_entry
release_all [] = []
release_all (ent ∷ es) = release_entry ent ∷ release_all es

unfoldable pub free : Reorder → Reorder
unfolding release_all
free reorder = record { head = []; released = reorder.released ++ release_all reorder.head }

-- What becomes of the buffer that is pushed: given back, without memory for an entry, or stored, in the
-- list that starts here.
pub data Pushed : Type 0 where
  covered : (buf : List ℕ) → Pushed
  no_memory : Pushed
  stored : (entries : List Entry) (nwrite : ℕ) → Pushed

unfoldable pub behind : Entry → Pushed → Pushed
behind ent (Pushed.covered buf) = Pushed.covered buf
behind ent Pushed.no_memory = Pushed.no_memory
behind ent (Pushed.stored entries nwrite) = Pushed.stored (ent ∷ entries) nwrite

-- From `if (begin == end)` on; `*pent` is the rest of the list.
unfoldable pub place : Bool → Bool → ℕ → ℕ → List ℕ → List Entry → Pushed
place memory owned begin last buf rest =
    if begin == last
    then Pushed.covered buf
    else if memory
    then Pushed.stored
        (record { begin = begin; last = last; buf = take (last - begin) buf; owned = owned } ∷ rest)
        (last - begin)
    else Pushed.no_memory

-- The loop over the list.
unfoldable pub insert : Bool → Bool → ℕ → ℕ → List ℕ → List Entry → Pushed
unfolding behind place
insert memory owned begin last buf [] = place memory owned begin last buf []
insert memory owned begin last buf (ent ∷ es) = elim (leb ent.last begin) [
  | true ↦ behind ent (insert memory owned begin last buf es)
  | false ↦ elim (leb last ent.begin) [
    | true ↦ place memory owned begin last buf (ent ∷ es)
    | false ↦ elim (leb ent.begin begin) [
      | true ↦ elim (leb last ent.last) [
        | true ↦ Pushed.covered buf
        | false ↦ behind ent (insert memory owned ent.last last (drop (ent.last - begin) buf) es)
      ]
      | false ↦ place memory owned begin ent.begin buf (ent ∷ es)
    ]
  ]
]

-- The new state, and `*pnwrite`.
unfoldable pub settle : Reorder → Bool → Pushed → Outcome (Reorder × ℕ)
settle reorder owned (Pushed.covered buf) = ok (
  record reorder { released = reorder.released ++ (record { buf = buf; owned = owned } ∷ []) },
  0,
)
settle reorder owned Pushed.no_memory = err nomem
settle reorder owned (Pushed.stored entries nwrite) = ok (record reorder { head = entries }, nwrite)

unfoldable pub push : Bool → Reorder → List ℕ → ℕ → ℕ → Bool → Outcome (Reorder × ℕ)
unfolding insert settle
push memory reorder buf offset cont_offset owned =
    let end = (offset + length buf) % 2 ^ 64 in
    if ltb end offset
    then err frame_encoding
    else if leb end cont_offset
    then settle reorder owned (Pushed.covered buf)
    else if ltb offset cont_offset
    then settle reorder owned
        (insert memory owned cont_offset end (drop (cont_offset - offset) buf) reorder.head)
    else settle reorder owned (insert memory owned offset end buf reorder.head)

unfoldable pub first_gap : List Entry → ℕ → ℕ
first_gap [] offset = offset
first_gap (ent ∷ es) offset = elim (leb ent.last offset) [
  | true ↦ first_gap es offset
  | false ↦ elim (ltb offset ent.begin) [ true ↦ offset | false ↦ first_gap es ent.last ]
]

unfoldable pub first_gap_offset : Reorder → ℕ → ℕ
unfolding first_gap
first_gap_offset reorder cont_offset = first_gap reorder.head cont_offset

-- The buffer, if there is one, whose length is returned.
unfoldable pub data_in : List Entry → ℕ → Outcome (List ℕ × ℕ)
data_in [] offset = ok ([], 0)
data_in (ent ∷ es) offset =
    let rest = data_in es offset in
    if leb ent.last offset
    then rest
    else if ltb offset ent.begin
    then ok ([], 0)
    else (do assert (offset == ent.begin); ok (ent.buf, ent.last - offset))

unfoldable pub data_at : Reorder → ℕ → Outcome (List ℕ × ℕ)
unfolding data_in
data_at reorder offset = data_in reorder.head offset

-- The list after the call, and the entries that are released.
unfoldable pub pop_in : List Entry → ℕ → ℕ → Outcome (List Entry × List Entry)
pop_in [] offset len = fault
pop_in (ent ∷ es) offset len =
    let rest = pop_in es offset len in
    if leb ent.last offset then (do (entries, gone) ← rest; ok (ent ∷ entries, gone)) else (do
      assert (offset == ent.begin)
      assert (leb (offset + len) ent.last)
      (if ltb (offset + len) ent.last
          then ok (record ent { begin = ent.begin + len; buf = drop len ent.buf } ∷ es, [])
          else ok (es, ent ∷ [])))

unfoldable pub pop : Reorder → ℕ → ℕ → Outcome Reorder
unfolding pop_in release_all
pop reorder offset len = do
  (entries, gone) ← pop_in reorder.head offset len
  ok (record { head = entries; released = reorder.released ++ release_all gone })

unfoldable pub remove_before : List Entry → ℕ → List Entry × List Entry
remove_before [] offset = ([], [])
remove_before (ent ∷ es) offset =
    let rest = remove_before es offset in
    if leb offset ent.begin
    then (ent ∷ es, [])
    else if ltb offset ent.last
    then (record ent { begin = offset; buf = drop (offset - ent.begin) ent.buf } ∷ es, [])
    else (rest.0, ent ∷ rest.1)

unfoldable pub remove_prefix : Reorder → ℕ → Reorder
unfolding remove_before release_all
remove_prefix reorder offset =
    let (entries, gone) = remove_before reorder.head offset in
    record { head = entries; released = reorder.released ++ release_all gone }

unfoldable pub data_buffered : Reorder → Bool
data_buffered reorder = elim reorder.head [ [] ↦ false | _ ∷ _ ↦ true ]
