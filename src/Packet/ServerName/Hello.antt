-- ===== src/Packet/ServerName/Hello.antt =====
-- ClientHello messages of RFC 8446, section 4.1.2, with the Server Name Indication of RFC 6066, as
-- `ngtcp2_pkt_find_server_name` of lib/ngtcp2_pkt.c searches them.
use zngtcp.Base.{
  ℕ, zero, suc, ◌+◌, ◌*◌, ◌/◌, ◌%◌, ◌^◌, ◌<◌, ◌≡◌, ◌≢◌, refl, ap, ◌∙◌, List, [], ◌∷◌, ◌++◌, Option,
  none, some, ok, length, length-append, take-length_append, drop-length_append, append-nil, All,
  arith,
}
use zngtcp.Conv.{peek, get_uint16be, get_uint24be, put_uint16be, put_uint24be}
use zngtcp.Frame.Cursor.{advance, bytes_at}
use zngtcp.Packet.ServerName.{
  trunc, skip8, skip16, entry_name, first_name, find_extension, find_in_hello, find_server_name,
}

-- A field behind its length, and what follows
abbrev pub block8 : List ℕ → List ℕ → List ℕ
block8 x r = length x ∷ (x ++ r)

abbrev pub block16 : List ℕ → List ℕ → List ℕ
block16 x r = put_uint16be (length x) ++ (x ++ r)

-- The one extension with a list of one host name
abbrev pub sni_data : List ℕ → List ℕ
sni_data name = block16 (0 ∷ block16 name []) []

-- Other extensions, and then none, or the Server Name Indication and any bytes
abbrev pub Ending : Type 0
Ending = Option (List ℕ × List ℕ)

abbrev pub ending_bytes : Ending → List ℕ
ending_bytes none = []
ending_bytes (some (name, more)) = put_uint16be 0 ++ block16 (sni_data name) more

abbrev pub server_name : Ending → Option (List ℕ)
server_name none = none
server_name (some (name, more)) = some name

unfoldable pub extensions : List (ℕ × List ℕ) → Ending → List ℕ
extensions [] ending = ending_bytes ending
extensions ((t, d) ∷ others) ending = put_uint16be t ++ block16 d (extensions others ending)

abbrev pub hello_body : List ℕ → List ℕ → List ℕ → List ℕ → List ℕ → List ℕ
hello_body random session suites methods exts =
    put_uint16be 0x0303
    ++ (random ++ block8 session (block16 suites (block8 methods (block16 exts []))))

abbrev pub IsOther : ℕ × List ℕ → Type 0
IsOther (t, d) = (t ≢ 0) × (t < 2 ^ 16)

get_uint16be-put_uint16be :
    (n : ℕ) (p : List ℕ) → n < 2 ^ 16 → get_uint16be (put_uint16be n ++ p) ≡ ok (n, p)
unfolding get_uint16be put_uint16be
get_uint16be-put_uint16be n p small = ground arith

length-put_uint16be : (n : ℕ) (p : List ℕ) → length (put_uint16be n ++ p) ≡ 2 + length p
unfolding put_uint16be
length-put_uint16be n p = omega arith

length-block16 : (x r : List ℕ) → length (block16 x r) ≡ 2 + length x + length r
unfolding put_uint16be
length-block16 x r = omega (arith, length-append x r)

advance-append : (x r : List ℕ) → advance (length x) (x ++ r) ≡ ok r
unfolding advance
advance-append x r = ground (arith, length-append x r, drop-length_append x r)

trunc-append : (x r : List ℕ) → trunc (length x) (x ++ r) ≡ x
unfolding trunc
trunc-append x [] = ground (arith, append-nil x)
trunc-append x (b ∷ r) = ground (arith, length-append x (b ∷ r), take-length_append x (b ∷ r))

skip8-block8 : (x r : List ℕ) → skip8 (block8 x r) ≡ ok (some r)
unfolding skip8 peek advance
skip8-block8 x r = ground (arith, length-append x r, drop-length_append x r)

skip16-block16 : (x r : List ℕ) → length x < 2 ^ 16 → skip16 (block16 x r) ≡ ok (some r)
unfolding skip16
skip16-block16 x r small = ground (
  arith,
  length-block16 x r,
  get_uint16be-put_uint16be (length x) (x ++ r) small,
  length-append x r,
  advance-append x r,
)

entry_name-block16 :
    (name r : List ℕ) → length name < 2 ^ 16 → entry_name (0 ∷ block16 name r) ≡ ok (some name)
unfolding entry_name peek advance bytes_at
entry_name-block16 name r small = ground (
  arith,
  get_uint16be-put_uint16be (length name) (name ++ r) small,
  length-append name r,
  take-length_append name r,
)

first_name-sni :
    (name r : List ℕ)
    → 5 + length name < 2 ^ 16
    → first_name (block16 (sni_data name) r) ≡ ok (some name)
unfolding first_name
first_name-sni name r small =
    let list = 0 ∷ block16 name [] in
    let size : length list ≡ 3 + length name = omega (arith, length-block16 name []) in
    let size' : length (sni_data name) ≡ 5 + length name =
      omega (arith, size, length-block16 list []) in
    let whole = trunc-append (sni_data name) r in
    let whole' = trunc-append list [] in
    ground (
      arith,
      size,
      size',
      whole,
      whole',
      length-append (sni_data name) r,
      length-append list [],
      get_uint16be-put_uint16be (length (sni_data name)) (sni_data name ++ r)
          (omega (arith, size', small)),
      get_uint16be-put_uint16be (length list) (list ++ []) (omega (arith, size, small)),
      entry_name-block16 name [] (omega (arith, small)),
    )

find_extension-extensions :
    (fuel : ℕ) (others : List (ℕ × List ℕ)) (ending : Ending)
    → All IsOther others
    → length (extensions others ending) < fuel
    → length (extensions others ending) < 2 ^ 16
    → find_extension fuel (extensions others ending) ≡ ok (server_name ending)
unfolding find_extension extensions
find_extension-extensions zero others ending h enough small = absurd (omega (arith, enough))
find_extension-extensions (suc fuel) [] none h enough small = refl
find_extension-extensions (suc fuel) [] (some (name, more)) h enough small =
    let list = 0 ∷ block16 name [] in
    let size : length list ≡ 3 + length name = omega (arith, length-block16 name []) in
    let size' : length (sni_data name) ≡ 5 + length name =
      omega (arith, size, length-block16 list []) in
    let p = block16 (sni_data name) more in
    let whole = length-block16 (sni_data name) more in
    let typed = length-put_uint16be 0 p in
    let fits : 5 + length name < 2 ^ 16 = omega (arith, small, typed, whole, size') in
    ground (
      arith,
      typed,
      whole,
      get_uint16be-put_uint16be 0 p (omega arith),
      first_name-sni name more fits,
    )
find_extension-extensions (suc fuel) ((t, d) ∷ others) ending ((other, t16), h) enough small =
    let r = extensions others ending in
    let p = block16 d r in
    let whole = length-block16 d r in
    let typed = length-put_uint16be t p in
    let rest =
      find_extension-extensions fuel others ending h (omega (arith, enough, typed, whole))
        (omega (arith, small, typed, whole)) in
    let skipped = skip16-block16 d r (omega (arith, small, typed, whole)) in
    ground (arith, typed, whole, get_uint16be-put_uint16be t p t16, other, skipped, rest)

find_in_hello-body :
    (random session suites methods : List ℕ) (others : List (ℕ × List ℕ)) (ending : Ending)
    → length random ≡ 32
    → length suites < 2 ^ 16
    → All IsOther others
    → length (extensions others ending) < 2 ^ 16
    → find_in_hello (hello_body random session suites methods (extensions others ending))
      ≡ ok (server_name ending)
unfolding find_in_hello
find_in_hello-body random session suites methods others ending size small h fits =
    let exts = extensions others ending in
    let p4 = block16 exts [] in
    let p3 = block8 methods p4 in
    let p2 = block16 suites p3 in
    let p1 = block8 session p2 in
    let found = find_extension-extensions (suc (length exts)) others ending h (omega arith) fits in
    let after : advance 32 (random ++ p1) ≡ ok p1 =
      ap (λ n. advance n (random ++ p1)) (omega (arith, size)) ∙ advance-append random p1 in
    ground (
      arith,
      length-put_uint16be 0x0303 (random ++ p1),
      get_uint16be-put_uint16be 0x0303 (random ++ p1) (omega arith),
      length-append random p1,
      size,
      after,
      skip8-block8 session p2,
      skip16-block16 suites p3 small,
      skip8-block8 methods p4,
      length-block16 exts [],
      get_uint16be-put_uint16be (length exts) (exts ++ []) fits,
      trunc-append exts [],
      found,
    )

-- A ClientHello: its type, the length of its body, and the body
abbrev pub client_hello : List ℕ → List ℕ
client_hello body = 1 ∷ (put_uint24be (length body) ++ body)

-- In a ClientHello that is whole, whatever bytes follow, `ngtcp2_pkt_find_server_name` finds the name
-- of the first Server Name Indication, behind any other extensions, and nothing if there is none.
pub find_server_name-client_hello :
    (random session suites methods : List ℕ) (others : List (ℕ × List ℕ)) (ending : Ending)
    (r : List ℕ)
    → length random ≡ 32
    → (length session < 256) × (length suites < 2 ^ 16) × (length methods < 256)
    → All IsOther others
    → length (extensions others ending) < 2 ^ 16
    → find_server_name
        (client_hello (hello_body random session suites methods (extensions others ending)) ++ r)
      ≡ ok (server_name ending)
unfolding find_server_name peek advance put_uint24be get_uint24be
find_server_name-client_hello random session suites methods others ending r size (s, c, m) h fits =
    let exts = extensions others ending in
    let body = hello_body random session suites methods exts in
    let found = find_in_hello-body random session suites methods others ending size c h fits in
    let p4 = block16 exts [] in
    let p3 = block8 methods p4 in
    let p2 = block16 suites p3 in
    let p1 = block8 session p2 in
    let n : length body < 2 ^ 24 = omega (
      arith,
      length-put_uint16be 0x0303 (random ++ p1),
      length-append random p1,
      length-append session p2,
      length-block16 suites p3,
      length-append methods p4,
      length-block16 exts [],
      size,
      s,
      c,
      m,
      fits,
    ) in
    let whole = trunc-append body r in
    let number : (length body / 2 ^ 16 % 256 * 256 + length body / 256 % 256) * 256
          + length body % 256
        ≡ length body =
      omega (arith, n) in
    ground (arith, whole, number, found)
