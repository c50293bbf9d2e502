-- ===== src/Params/RoundTrip/Compound.antt =====
-- The preferred address and the version information, read back from what is written.
use zngtcp.Base.{
  ℕ, zero, suc, ◌+◌, ◌%◌, ◌^◌, ◌<◌, ◌≡◌, refl, List, [], ◌∷◌, ◌++◌, append_assoc, Bool, true, false,
  not, ◌||◌, ◌==◌, ok, ltb, leb, length, length-append, All, arith, if◌then◌else◌, replicate,
  length-replicate, ◌-◌, Bool-cases, inl, inr,
}
use zngtcp.Conv.{IsByte, put_uint32be, get_uint32be, peek}
use zngtcp.Conv.Write.{All-append}
use zngtcp.Params.{PreferredAddr, VersionInfo, defaults}
use zngtcp.Params.Decode.{
  get_bytes, is_set, decode_addresses, decode_preferred_addr, decode_version_info,
}
use zngtcp.Params.Encode.{write_addr, preferred_addr_bytes, preferred_addrlen, version_info_bytes}
use zngtcp.Params.RoundTrip.{IsAddressSent, IsPreferredSent, IsVersionSent, received_addr}
use zngtcp.Params.RoundTrip.Blocks.{length-preferred_addr_bytes, preferred_IsPart, version_IsPart}
use zngtcp.Params.RoundTrip.Reads.{field, get_bytes-append, decode_varint-encoding}

is_set-zeros : (n : ℕ) → is_set (replicate n 0) ≡ false
unfolding is_set
is_set-zeros zero = refl
is_set-zeros (suc n) = is_set-zeros n

abbrev port_of : Bool → List ℕ → List ℕ
port_of present port = if present then port else replicate 2 0

abbrev addr_of : ℕ → Bool → List ℕ → List ℕ
addr_of n present addr = if present then addr else replicate n 0

module _ (n : ℕ) (addr port q : List ℕ) where
  get_bytes-addr :
      (b : Bool)
      → IsAddressSent n b addr port
      → get_bytes n (write_addr b n addr port ++ q) ≡ ok (addr_of n b addr, port_of b port ++ q)
  unfolding write_addr
  get_bytes-addr true h =
      rw (append_assoc addr port q)
        (get_bytes-append n addr (port ++ q) (omega (arith, h.addr_size refl)))
  get_bytes-addr false h = rw (append_assoc (replicate n 0) (replicate 2 0) q) (
      get_bytes-append n (replicate n 0) (replicate 2 0 ++ q)
        (omega (arith, length-replicate {A = ℕ} n 0)))

  get_bytes-port :
      (b : Bool)
      → IsAddressSent n b addr port
      → get_bytes 2 (port_of b port ++ q) ≡ ok (port_of b port, q)
  get_bytes-port true h = get_bytes-append 2 port q (omega (arith, h.port_size refl))
  get_bytes-port false h = get_bytes-append 2 (replicate 2 0) q refl

-- An address is taken to be there exactly if it was.
found :
    (n : ℕ) (addr port : List ℕ) (b : Bool)
    → IsAddressSent n b addr port
    → (if is_set (port_of b port) || is_set (addr_of n b addr) then true else false) ≡ b
unfolding is_set
found n addr port true h = rw (h.nonzero refl)
found n addr port false h = rw (is_set-zeros n)

decode_addresses-bytes :
    (a : PreferredAddr) (q : List ℕ)
    → IsPreferredSent a
    → decode_addresses defaults.preferred_addr (
        write_addr a.ipv4_present 4 a.ipv4_addr a.ipv4_port
        ++ (write_addr a.ipv6_present 16 a.ipv6_addr a.ipv6_port ++ q))
      ≡ ok (
        record (received_addr a) {
          cid = defaults.preferred_addr.cid;
          reset_token = defaults.preferred_addr.reset_token;
        },
        q,
      )
unfolding decode_addresses
decode_addresses-bytes a q h =
    let tail = write_addr a.ipv6_present 16 a.ipv6_addr a.ipv6_port ++ q in
    rw (
      get_bytes-addr 4 a.ipv4_addr a.ipv4_port tail a.ipv4_present h.ipv4,
      get_bytes-port 4 a.ipv4_addr a.ipv4_port tail a.ipv4_present h.ipv4,
      get_bytes-addr 16 a.ipv6_addr a.ipv6_port q a.ipv6_present h.ipv6,
      get_bytes-port 16 a.ipv6_addr a.ipv6_port q a.ipv6_present h.ipv6,
      found 4 a.ipv4_addr a.ipv4_port a.ipv4_present h.ipv4,
      found 16 a.ipv6_addr a.ipv6_port a.ipv6_present h.ipv6,
    )

split_tail :
    (a : PreferredAddr) (r : List ℕ)
    → preferred_addr_bytes a ++ r
      ≡ write_addr a.ipv4_present 4 a.ipv4_addr a.ipv4_port
        ++ (write_addr a.ipv6_present 16 a.ipv6_addr a.ipv6_port
            ++ ((length a.cid % 256) ∷ (a.cid ++ (a.reset_token ++ r))))
unfolding preferred_addr_bytes
split_tail a r = simp (append_assoc)

one_byte : (b : ℕ) (q : List ℕ) → get_bytes 1 (b ∷ q) ≡ ok (b ∷ [], q)
unfolding get_bytes
one_byte b q = ground arith

pub decode_preferred_addr-field :
    (a : PreferredAddr) (r : List ℕ)
    → IsPreferredSent a
    → All IsByte r
    → decode_preferred_addr defaults.preferred_addr (field (preferred_addr_bytes a) r)
      ≡ ok (received_addr a, r)
unfolding decode_preferred_addr
decode_preferred_addr-field a r h hr =
    let part = preferred_IsPart a h in
    let v = preferred_addr_bytes a in
    let n = length a.cid in
    let size : length v ≡ 41 + n =
      unfold preferred_addrlen in omega (arith, length-preferred_addr_bytes a h) in
    let fits : leb (length v) (length (v ++ r)) ≡ true = ground (arith, length-append v r) in
    let large : leb 41 (length v) ≡ true = ground (arith, size) in
    let short : n % 256 ≡ n = omega (arith, h.cid.size) in
    let whole : not (not (length v == 41 + n) || ltb 20 n || ltb n 1) ≡ true =
      ground (arith, size, h.cid.size, h.cid_pos) in
    rw
      (
        decode_varint-encoding (length v) (v ++ r) part.size (All-append v r part.bytes hr),
        fits,
        large,
        split_tail a r,
        decode_addresses-bytes a ((n % 256) ∷ (a.cid ++ (a.reset_token ++ r))) h,
        one_byte (n % 256) (a.cid ++ (a.reset_token ++ r)),
      )
      (unfold peek in
        rw (
          short,
          whole,
          get_bytes-append n a.cid (a.reset_token ++ r) refl,
          get_bytes-append 16 a.reset_token r (omega (arith, h.token.size)),
        ))

get_uint32be-put_uint32be :
    (n : ℕ) (q : List ℕ) → n < 2 ^ 32 → get_uint32be (put_uint32be n ++ q) ≡ ok (n, q)
unfolding get_uint32be put_uint32be
get_uint32be-put_uint32be n q h = ground arith

nil_of_length : (p : List ℕ) → length p ≡ 0 → p ≡ []
nil_of_length [] e = refl
nil_of_length (b ∷ p) e = absurd (omega (arith, e))

pub decode_version_info-field :
    (v : VersionInfo) (r : List ℕ)
    → IsVersionSent v
    → All IsByte r
    → decode_version_info defaults.version_info (field (version_info_bytes v) r) ≡ ok (v, r)
unfolding decode_version_info
decode_version_info-field v r h hr =
    let part = version_IsPart v h in
    let w = version_info_bytes v in
    let available = v.available_versions in
    let size : length w ≡ 4 + length available =
      unfold version_info_bytes put_uint32be in omega arith in
    let fits : leb (length w) (length (w ++ r)) ≡ true = ground (arith, length-append w r) in
    let words : not (ltb (length w) 4 || not (length w % 4 == 0)) ≡ true =
      ground (arith, size, h.whole) in
    let chosen : not (v.chosen_version == 0) ≡ true = ground (arith, h.chosen_pos) in
    let taken : w ++ r ≡ put_uint32be v.chosen_version ++ (available ++ r) =
      unfold version_info_bytes in append_assoc (put_uint32be v.chosen_version) available r in
    rw
      (
        decode_varint-encoding (length w) (w ++ r) part.size (All-append w r part.bytes hr),
        fits,
        words,
        taken,
        get_uint32be-put_uint32be v.chosen_version (available ++ r) h.chosen_max,
        chosen,
      )
      (elim (Bool-cases (ltb 4 (length w))) [
        | inl more ↦
            rw (more, get_bytes-append (length w - 4) available r (omega (arith, size)), h.nonzero)
        | inr over ↦ rw over (ground (arith, nil_of_length available (ground (arith, over, size))))
      ])
