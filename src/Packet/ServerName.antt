-- ===== src/Packet/ServerName.antt =====
-- `ngtcp2_pkt_find_server_name` of lib/ngtcp2_pkt.c, which searches the ClientHello at the start of a
-- CRYPTO stream. A buffer is the list of the bytes between its `pos` and its `last`.
pub mod Inside
pub mod Hello
pub mod Examples
use zngtcp.Base.{
  ℕ, zero, suc, ◌+◌, List, [], ◌∷◌, Option, none, some, Bool, true, false, ◌&&◌, Outcome, ok, err,
  fault, ltb, leb, ◌==◌, length, take, if◌then◌else◌,
}
use zngtcp.Conv.{peek, get_uint16be, get_uint24be}
use zngtcp.Frame.Cursor.{advance, bytes_at}

-- `ok none` is `return 0`.
infixl 5 ◌>>=◌ ◌>>◌
abbrev pub ◌>>=◌ {ℓ κ} :
    {A : Type ℓ} {B : Type κ} → Outcome (Option A) → (A → Outcome (Option B)) → Outcome (Option B)
ok (some a) >>= f = f a
ok none >>= f = ok none
err e >>= f = err e
fault >>= f = fault

abbrev pub ◌>>◌ {ℓ} :
    {B : Type ℓ} → Outcome (Option (Unit {0})) → Outcome (Option B) → Outcome (Option B)
m >> k = m >>= λ _. k

-- `if (!b) return 0;`
abbrev pub continue_if : Bool → Outcome (Option (Unit {0}))
continue_if true = ok (some tt)
continue_if false = ok none

-- A step that has a result
abbrev pub step {ℓ} : {A : Type ℓ} → Outcome A → Outcome (Option A)
step (ok a) = ok (some a)
step (err e) = err e
step fault = fault

-- `ngtcp2_buf_trunc`
unfoldable pub trunc : ℕ → List ℕ → List ℕ
trunc len p = if ltb len (length p) then take len p else p

-- `pkt_tls_skip8` and `pkt_tls_skip16`, where `ok none` is -1
unfoldable pub skip8 : List ℕ → Outcome (Option (List ℕ))
skip8 p = do
  continue_if (leb 1 (length p))
  len ← step (peek p)
  q ← step (advance 1 p)
  continue_if (leb len (length q))
  step (advance len q)

unfoldable pub skip16 : List ℕ → Outcome (Option (List ℕ))
skip16 p = do
  continue_if (leb 2 (length p))
  (len, q) ← step (get_uint16be p)
  continue_if (leb len (length q))
  step (advance len q)

-- The first entry of the list of server names
unfoldable pub entry_name : List ℕ → Outcome (Option (List ℕ))
entry_name p = do
  name_type ← step (peek p)
  q ← step (advance 1 p)
  continue_if (name_type == 0)
  (len, name) ← step (get_uint16be q)
  continue_if (leb len (length name))
  step (bytes_at len name)

-- Behind the type of the Server Name Indication extension
unfoldable pub first_name : List ℕ → Outcome (Option (List ℕ))
first_name p = do
  (len, extension) ← step (get_uint16be p)
  continue_if (leb len (length extension) && leb 2 len)
  (len', list) ← step (get_uint16be (trunc len extension))
  continue_if (leb len' (length list) && leb 3 len')
  entry_name (trunc len' list)

-- The loop over the extensions, with at most `fuel` rounds
unfoldable pub find_extension : ℕ → List ℕ → Outcome (Option (List ℕ))
find_extension zero p = fault
find_extension (suc fuel) p = do
  continue_if (leb 4 (length p))
  (ext_type, q) ← step (get_uint16be p)
  let next = (do q' ← skip16 q; find_extension fuel q')
  if ext_type == 0 then first_name q else next

-- From the legacy version to the extensions
unfoldable pub find_in_hello : List ℕ → Outcome (Option (List ℕ))
find_in_hello p = do
  continue_if (leb 2 (length p))
  (legacy_ver, p1) ← step (get_uint16be p)
  continue_if (legacy_ver == 0x0303)
  continue_if (leb 32 (length p1))
  p2 ← step (advance 32 p1)
  p3 ← skip8 p2
  p4 ← skip16 p3
  p5 ← skip8 p4
  continue_if (leb 2 (length p5))
  (len, p6) ← step (get_uint16be p5)
  let extensions = trunc len p6
  find_extension (suc (length extensions)) extensions

unfoldable pub find_server_name : List ℕ → Outcome (Option (List ℕ))
find_server_name v = do
  step (if ltb 0 (length v) then ok tt else fault)
  continue_if (leb 4 (length v))
  msg_type ← step (peek v)
  p ← step (advance 1 v)
  continue_if (msg_type == 1)
  (msglen, p') ← step (get_uint24be p)
  find_in_hello (trunc msglen p')
