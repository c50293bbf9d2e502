-- ===== src/Packet/VersionCid/Layout.antt =====
-- The decoder of version and connection IDs in lib/ngtcp2_pkt.c against the layout of RFC 8999.
use zngtcp.Base.{
  ℕ, zero, suc, ◌+◌, ◌*◌, ◌/◌, ◌%◌, ◌≤◌, ◌<◌, ◌≡◌, refl, ap, ◌∙◌, List, [], ◌∷◌, Option, none, some,
  Bool, false, not, ◌&&◌, ◌||◌, Bool-cases, Outcome, ok, err, invalid_argument, ltb, leb, ◌==◌,
  length, get_elem?, drop, length-drop, length-take, if◌then◌else◌, arith, inl, inr,
}
use zngtcp.Conv.{get_uint32be}
use zngtcp.Frame.Cursor.{advance, bytes_at}
use zngtcp.Frame.Layout.{◌>>=◌, read_bytes, read_byte}
use zngtcp.Packet.VersionCid.{
  VersionCid, is_supported_version, byte_of, slice, decode_long, decode_version_cid,
}

-- Two connection IDs, each behind its length.
unfoldable pub read_cids : List ℕ → Option (List ℕ × List ℕ)
unfolding read_bytes read_byte
read_cids p = do
  (dcidlen, p1) ← read_byte p
  (dcid, p2) ← read_bytes dcidlen p1
  (scidlen, p3) ← read_byte p2
  (scid, _) ← read_bytes scidlen p3
  some (dcid, scid)

-- What the library makes of them: a version that it supports has connection IDs of 20 bytes at most, and
-- a packet of a version that it does not know, which it answers, is not short.
unfoldable pub accept : ℕ → ℕ → Option (List ℕ × List ℕ) → Outcome (VersionCid × Bool)
accept len version none = err invalid_argument
accept len version (some (dcid, scid)) =
    let supported = is_supported_version version in
    if supported && (ltb 20 (length dcid) || ltb 20 (length scid))
    then err invalid_argument
    else if not (version == 0) && not supported && ltb len 1200
    then err invalid_argument
    else ok (
      record { version = version; dcid = dcid; scid = scid },
      not (version == 0) && not supported,
    )

pub next_byte :
    (n : ℕ) (p : List ℕ)
    → n < length p
    → (s : ℕ) × (get_elem? p n ≡ some s) × (drop n p ≡ s ∷ drop (suc n) p)
next_byte n [] h = absurd (omega (arith, h))
next_byte zero (s ∷ p) h = (s, refl, refl)
next_byte (suc n) (s ∷ p) h = next_byte n p (omega (arith, h))

module _ (t a b c e d : ℕ) (p : List ℕ) where
  index_behind : (n : ℕ) → get_elem? (t ∷ a ∷ b ∷ c ∷ e ∷ d ∷ p) (6 + n) ≡ get_elem? p n
  index_behind n = ground arith

  drop_behind : (n : ℕ) → drop (7 + n) (t ∷ a ∷ b ∷ c ∷ e ∷ d ∷ p) ≡ drop (suc n) p
  drop_behind n = ground arith

  long-layout :
      decode_long (t ∷ a ∷ b ∷ c ∷ e ∷ d ∷ p)
      ≡ accept (6 + length p) (((a * 256 + b) * 256 + c) * 256 + e) (read_cids (d ∷ p))
  unfolding decode_long byte_of slice advance bytes_at get_uint32be accept read_cids read_bytes
      read_byte
  long-layout = elim (Bool-cases (ltb d (length p))) [
    | inr cut ↦ ground (arith, cut, length-drop d p)
    | inl enough ↦
        let (s, found, rest) = next_byte d p (ground (arith, enough)) in
        elim (Bool-cases (leb (7 + d + s) (6 + length p))) [
          | inr cut ↦
              ground (arith, enough, cut, found, rest, index_behind d, length-drop (suc d) p)
          | inl all ↦ ground (
            arith,
            enough,
            all,
            found,
            rest,
            index_behind d,
            drop_behind d,
            length-drop (suc d) p,
            length-take d p,
            length-take s (drop (suc d) p),
          )
        ]
  ]

-- Behind the first byte of a long header: the version and the connection IDs.
unfoldable pub read_long : List ℕ → Outcome (VersionCid × Bool)
unfolding accept read_cids
read_long (a ∷ b ∷ c ∷ e ∷ p) =
    accept (5 + length p) (((a * 256 + b) * 256 + c) * 256 + e) (read_cids p)
read_long _ = err invalid_argument

-- Of a short header: a connection ID whose length the receiver knows.
unfoldable pub read_short : ℕ → List ℕ → Outcome (VersionCid × Bool)
unfolding read_bytes
read_short short_dcidlen p = elim (read_bytes short_dcidlen p) [
  | none ↦ err invalid_argument
  | some (dcid, _) ↦ ok (record { version = 0; dcid = dcid; scid = [] }, false)
]

long-read_long : (t : ℕ) (p : List ℕ) → decode_long (t ∷ p) ≡ read_long p
unfolding read_long
long-read_long t (a ∷ b ∷ c ∷ e ∷ d ∷ p) =
    let same : 6 + length p ≡ 5 + length (d ∷ p) = omega arith in
    let version = ((a * 256 + b) * 256 + c) * 256 + e in
    long-layout t a b c e d p ∙ ap (λ n. accept n version (read_cids (d ∷ p))) same
long-read_long t (a ∷ b ∷ c ∷ e ∷ []) =
    unfold decode_long accept read_cids read_byte in ground arith
long-read_long t (a ∷ b ∷ c ∷ []) = unfold decode_long in ground arith
long-read_long t (a ∷ b ∷ []) = unfold decode_long in ground arith
long-read_long t (a ∷ []) = unfold decode_long in ground arith
long-read_long t [] = unfold decode_long in ground arith

-- On a packet with a first byte, and a length of at most 20 for the connection IDs of short headers,
-- the decoder returns what reading the fields in their order gives, with
-- NGTCP2_ERR_INVALID_ARGUMENT where the packet is cut short; it reads no byte outside of the packet
-- and fails no `assert`.
pub decode_version_cid-layout :
    (t : ℕ) (p : List ℕ) (short_dcidlen : ℕ)
    → short_dcidlen ≤ 20
    → decode_version_cid (t ∷ p) short_dcidlen
      ≡ (if t / 128 % 2 == 1 then read_long p else read_short short_dcidlen p)
unfolding decode_version_cid byte_of slice advance bytes_at read_short read_bytes
decode_version_cid-layout t p n h = ground (arith, h, long-read_long t p)
