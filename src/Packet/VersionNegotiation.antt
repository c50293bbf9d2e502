-- ===== src/Packet/VersionNegotiation.antt =====
-- Version Negotiation packets of lib/ngtcp2_pkt.c. The destination is a buffer that
-- `pkt_validate_tx_dest` takes, and `room` the number of its bytes.
use zngtcp.Base.{
  ℕ, zero, suc, ◌+◌, ◌*◌, ◌/◌, ◌%◌, ◌^◌, ◌≤◌, ◌<◌, ◌≡◌, refl, ap, ◌∙◌, inl, inr, List, [], ◌∷◌,
  ◌++◌, Bool, true, false, ◌&&◌, all_below-lt, Outcome, ok, ◌>>=◌, ◌>>◌, guard, assert, nobuf, ltb,
  leb, ◌==◌, length, drop, take, All, bit_or, arith, length-append, drop-length_append,
  take-length_append, some, if◌then◌else◌,
}
use zngtcp.Conv.{put_uint32be, get_uint32be}
use zngtcp.Frame.Layout.{read_bytes, read_byte}
use zngtcp.Packet.VersionCid.{decode_version_cid, is_supported_version}
use zngtcp.Packet.VersionCid.Layout.{read_long, read_cids, accept, decode_version_cid-layout}

-- The loop over `sv`
unfoldable pub put_versions : List ℕ → List ℕ
unfolding put_uint32be
put_versions [] = []
put_versions (v ∷ sv) = put_uint32be v ++ put_versions sv

unfoldable pub write_version_negotiation : ℕ → ℕ → List ℕ → List ℕ → List ℕ → Outcome (List ℕ)
unfolding put_versions put_uint32be
write_version_negotiation room unused_random dcid scid sv = do
  let len = 1 + 4 + 1 + length dcid + 1 + length scid + length sv * 4
  assert (ltb (length dcid) 256)
  assert (ltb (length scid) 256)
  guard (leb len room) nobuf
  let cids = (length dcid % 256) ∷ (dcid ++ ((length scid % 256) ∷ (scid ++ put_versions sv)))
  let bytes = bit_or 0xc0 unused_random ∷ (put_uint32be 0 ++ cids)
  assert (length bytes == len)
  ok bytes

-- The loop to the end of the payload
unfoldable pub get_versions : List ℕ → Outcome (List ℕ)
unfolding get_uint32be
get_versions [] = ok []
get_versions (a ∷ b ∷ c ∷ d ∷ p) = do
  (v, _) ← get_uint32be (a ∷ b ∷ c ∷ d ∷ p)
  vs ← get_versions p
  ok (v ∷ vs)
get_versions _ = zngtcp.Base.fault

unfoldable pub decode_version_negotiation : List ℕ → Outcome (List ℕ)
unfolding get_versions
decode_version_negotiation payload = do assert (length payload % 4 == 0); get_versions payload

length-put_versions : (sv : List ℕ) → length (put_versions sv) ≡ length sv * 4
unfolding put_versions put_uint32be
length-put_versions [] = refl
length-put_versions (v ∷ sv) = omega (arith, length-put_versions sv)

get_versions-put_versions :
    (sv : List ℕ) → All (λ v. v < 2 ^ 32) sv → get_versions (put_versions sv) ≡ ok sv
unfolding get_versions put_versions put_uint32be get_uint32be
get_versions-put_versions [] small = refl
get_versions-put_versions (v ∷ sv) small =
    let rest = get_versions-put_versions sv small.1 in ground (arith, rest, small.0)

pub read_bytes-append :
    (bytes p : List ℕ) → read_bytes (length bytes) (bytes ++ p) ≡ some (bytes, p)
unfolding read_bytes
read_bytes-append bytes p =
    let long : leb (length bytes) (length (bytes ++ p)) ≡ true =
      ground (arith, length-append bytes p) in
    rw (long, take-length_append bytes p, drop-length_append bytes p) refl

read_cids-append :
    (dcid scid p : List ℕ)
    → read_cids (length dcid ∷ (dcid ++ (length scid ∷ (scid ++ p)))) ≡ some (dcid, scid)
unfolding read_cids read_byte
read_cids-append dcid scid p =
    rw (read_bytes-append dcid (length scid ∷ (scid ++ p))) rw (read_bytes-append scid p) refl

drop-over :
    (xs : List ℕ) (b n : ℕ) (p : List ℕ) → drop (suc (length xs + n)) (xs ++ (b ∷ p)) ≡ drop n p
drop-over [] b n p = ground arith
drop-over (x ∷ xs) b n p =
    let same : suc (length xs) + n ≡ suc (length xs + n) = omega arith in
    rw (same) (drop-over xs b n p)

-- What is written, behind the first five bytes
abbrev cids_and_versions : List ℕ → List ℕ → List ℕ → List ℕ
cids_and_versions dcid scid sv = length dcid ∷ (dcid ++ (length scid ∷ (scid ++ put_versions sv)))

write-cids :
    (room r : ℕ) (dcid scid sv : List ℕ)
    → length dcid < 256
    → length scid < 256
    → 7 + length dcid + length scid + length sv * 4 ≤ room
    → write_version_negotiation room r dcid scid sv
      ≡ ok (bit_or 0xc0 r ∷ 0 ∷ 0 ∷ 0 ∷ 0 ∷ cids_and_versions dcid scid sv)
unfolding write_version_negotiation put_uint32be
write-cids room r dcid scid sv d s fits =
    let low : length dcid % 256 ≡ length dcid = omega (arith, d) in
    let low' : length scid % 256 ≡ length scid = omega (arith, s) in
    let tail = scid ++ put_versions sv in
    ground (
      arith,
      d,
      s,
      fits,
      low,
      low',
      length-append dcid (length scid ∷ tail),
      length-append scid (put_versions sv),
      length-put_versions sv,
    )

drop-cids :
    (t : ℕ) (dcid scid sv : List ℕ)
    → drop (7 + length dcid + length scid) (t ∷ 0 ∷ 0 ∷ 0 ∷ 0 ∷ cids_and_versions dcid scid sv)
      ≡ put_versions sv
drop-cids t dcid scid sv =
    let d = length dcid in
    let n = length scid in
    let same : 7 + d + n ≡ suc (suc (suc (suc (suc (suc (suc (d + n))))))) = omega arith in
    rw (same)
      (drop-over dcid n n (scid ++ put_versions sv) ∙ drop-length_append scid (put_versions sv))

decode-put_versions :
    (sv : List ℕ) → All (λ v. v < 2 ^ 32) sv → decode_version_negotiation (put_versions sv) ≡ ok sv
unfolding decode_version_negotiation
decode-put_versions sv small =
    let whole : (length (put_versions sv) % 4 == 0) ≡ true =
      ground (arith, length-put_versions sv) in
    ground (arith, whole, get_versions-put_versions sv small)

read_long-cids :
    (dcid scid sv : List ℕ)
    → read_long (0 ∷ 0 ∷ 0 ∷ 0 ∷ cids_and_versions dcid scid sv)
      ≡ ok (record { version = 0; dcid = dcid; scid = scid }, false)
unfolding read_long accept is_supported_version
read_long-cids dcid scid sv = rw (read_cids-append dcid scid (put_versions sv)) refl

-- With room for it, a Version Negotiation packet is written for any random byte, connection IDs of at
-- most 255 bytes and 32-bit versions. Both decoders read it: ngtcp2_pkt_decode_version_cid finds version
-- 0 and the connection IDs, and ngtcp2_pkt_decode_version_negotiation, behind those, the versions.
pub decode-write_version_negotiation :
    (room r short_dcidlen : ℕ) (dcid scid sv : List ℕ)
    → r < 256
    → short_dcidlen ≤ 20
    → length dcid < 256
    → length scid < 256
    → All (λ v. v < 2 ^ 32) sv
    → 7 + length dcid + length scid + length sv * 4 ≤ room
    → (bytes : List ℕ) × (write_version_negotiation room r dcid scid sv ≡ ok bytes)
      × (decode_version_cid bytes short_dcidlen
          ≡ ok (record { version = 0; dcid = dcid; scid = scid }, false))
      × (decode_version_negotiation (drop (7 + length dcid + length scid) bytes) ≡ ok sv)
decode-write_version_negotiation room r short_dcidlen dcid scid sv byte short d s small fits =
    let p : List ℕ = 0 ∷ 0 ∷ 0 ∷ 0 ∷ cids_and_versions dcid scid sv in
    let long = all_below-lt (λ r. bit_or 0xc0 r / 128 % 2 == 1) 256 refl r byte in
    let layout = decode_version_cid-layout (bit_or 0xc0 r) p short_dcidlen short in
    (
      bit_or 0xc0 r ∷ p,
      write-cids room r dcid scid sv d s fits,
      ground (arith, layout, long, read_long-cids dcid scid sv),
      ap decode_version_negotiation (drop-cids (bit_or 0xc0 r) dcid scid sv)
          ∙ decode-put_versions sv small,
    )
