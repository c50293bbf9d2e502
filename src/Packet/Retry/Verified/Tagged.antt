-- ===== src/Packet/Retry/Verified/Tagged.antt =====
-- The tag of a Retry packet of lib/ngtcp2_pkt.c.
use zngtcp.Base.{
  ℕ, ◌+◌, ◌-◌, ◌*◌, ◌/◌, ◌%◌, ◌≤◌, ◌<◌, ◌≡◌, refl, ap, sym, ◌∙◌, ◌↔◌, List, [], ◌∷◌, ◌++◌, some,
  true, false, ◌==◌, ok, length, take, All, arith, bit_and, bit_or, all_below-lt, length-append,
  take-length_append, drop-length_append, append-nil,
}
use zngtcp.Conv.{IsByte}
use zngtcp.Frame.Cursor.{bytes_at, advance}
use zngtcp.Packet.VersionCid.{is_supported_version}
use zngtcp.Packet.Header.{PktHd, retry}
use zngtcp.Packet.Retry.{
  PktRetry, Encrypt, same_bytes, nonce, with_ops, retry_tag, set_unused, decode_retry,
  verify_retry_tag,
}

-- The callback makes a tag of 16 bytes from whatever it is given.
pub record MakesTags (encrypt : Encrypt) : Type 0 where
  pub tag : List ℕ → List ℕ → List ℕ
  pub made : (nonce aad : List ℕ) → encrypt nonce aad ≡ ok (tag nonce aad)
  pub taglen : (nonce aad : List ℕ) → length (tag nonce aad) ≡ 16
  pub bytes : (nonce aad : List ℕ) → All IsByte (tag nonce aad)

-- What a server hands over
pub record CanRetry (version : ℕ) (dcid scid odcid token : List ℕ) : Type 0 where
  pub supported : is_supported_version version ≡ true
  pub fresh : same_bytes scid odcid ≡ false
  pub odcidlen : (8 ≤ length odcid) × (length odcid ≤ 20)
  pub cids : (length dcid ≤ 20) × (length scid ≤ 20)
  pub dcid_bytes : All IsByte dcid
  pub scid_bytes : All IsByte scid
  pub token_bytes : All IsByte token
  pub some_token : 1 ≤ length token
  pub fits : 8 + length odcid + length dcid + length scid + length token ≤ 1500

abbrev pub retry_hd : ℕ → List ℕ → List ℕ → PktHd
retry_hd version dcid scid = record {
  flags = record { long_form = true; fixed_bit_clear = false; key_phase = false };
  type = retry;
  dcid = dcid;
  scid = scid;
  pkt_num = 0;
  token = [];
  pkt_numlen = 1;
  len = 0;
  version = version;
}

same_bytes_refl : (p : List ℕ) → same_bytes p p ≡ true
unfolding same_bytes
same_bytes_refl [] = refl
same_bytes_refl (b ∷ p) = ground (arith, same_bytes_refl p)

same_bytes_eq : (p q : List ℕ) → same_bytes p q ≡ true → p ≡ q
unfolding same_bytes
same_bytes_eq [] [] h = refl
same_bytes_eq (a ∷ p) (b ∷ q) h =
    let rest = same_bytes_eq p q (ground (arith, h)) in ground (arith, h, rest)
same_bytes_eq [] (b ∷ q) h = cc
same_bytes_eq (a ∷ p) [] h = cc

high_bits : (b : ℕ) → b % 16 ≡ 0 → b < 256 → bit_or (bit_and b 0xf0) 0 ≡ b
high_bits b low small =
    let whole : b / 16 * 16 ≡ b = omega (arith, low) in
    let kept =
      all_below-lt (λ k. bit_or (bit_and (k * 16) 0xf0) 0 == k * 16) 16 refl (b / 16)
        (omega (arith, small)) in
    let kept' : bit_or (bit_and (b / 16 * 16) 0xf0) 0 ≡ b / 16 * 16 = ground (arith, kept) in
    ap (λ n. bit_or (bit_and n 0xf0) 0) (sym whole) ∙ kept' ∙ whole

pub set_unused_clear :
    (b : ℕ) (p : List ℕ) → b % 16 ≡ 0 → b < 256 → set_unused 0 (b ∷ p) ≡ ok (b ∷ p)
unfolding set_unused
set_unused_clear b p low small = ap (λ b. ok (b ∷ p)) (high_bits b low small)

pub decode_retry-tagged :
    (dest : PktRetry) (token tag : List ℕ)
    → length tag ≡ 16
    → 1 ≤ length token
    → decode_retry dest (token ++ tag)
      ≡ ok (record { odcid = dest.odcid; token = token; tag = tag })
unfolding decode_retry bytes_at advance
decode_retry-tagged dest token tag size least =
    let whole = length-append token tag in
    let n : length (token ++ tag) - 16 ≡ length token = omega (arith, whole, size) in
    let all : take 16 tag ≡ tag = cc (size, append-nil tag, take-length_append tag []) in
    ground (
      arith,
      whole,
      n,
      size,
      least,
      take-length_append token tag,
      drop-length_append token tag,
      all,
    )

same_bytes_iff : (p q : List ℕ) → (same_bytes p q ≡ true) ↔ (p ≡ q)
same_bytes_iff p q = (same_bytes_eq p q, λ e. ap (same_bytes p) (sym e) ∙ same_bytes_refl p)

pub retry_tag-made :
    (encrypt : Encrypt) (makes : MakesTags encrypt) (version : ℕ) (aad : List ℕ)
    → retry_tag encrypt version aad ≡ ok (makes.tag (nonce version) aad)
unfolding retry_tag
retry_tag-made encrypt makes version aad =
    ground (arith, makes.made (nonce version) aad, makes.taglen (nonce version) aad)

-- If the cipher makes tags of 16 bytes, `ngtcp2_pkt_verify_retry_tag` accepts a packet that ends in
-- 16 bytes, and that fits into the buffer of 1500 bytes behind the first connection ID of the
-- client, exactly when the tag that was read is the one that the cipher makes of that connection ID
-- and of the packet in front of those bytes.
pub verify_retry_tag-made :
    (encrypt : Encrypt) (makes : MakesTags encrypt) (version : ℕ) (ret : PktRetry) (p end : List ℕ)
    → length end ≡ 16
    → length ret.odcid ≤ 20
    → 1 + length ret.odcid + length p ≤ 1500
    → (verify_retry_tag (some encrypt) version ret (p ++ end) ≡ ok tt)
      ↔ (ret.tag ≡ makes.tag (nonce version) (length ret.odcid ∷ (ret.odcid ++ p)))
unfolding verify_retry_tag bytes_at with_ops
verify_retry_tag-made encrypt makes version ret p end size short fits =
    let whole = length-append p end in
    let n : length (p ++ end) - 16 ≡ length p = omega (arith, whole, size) in
    let d : length ret.odcid % 256 ≡ length ret.odcid = omega (arith, short) in
    let aad = length ret.odcid ∷ (ret.odcid ++ p) in
    let made = retry_tag-made encrypt makes version aad in
    let same = same_bytes_iff ret.tag (makes.tag (nonce version) aad) in
    ground (arith, whole, n, d, size, fits, made, take-length_append p end, same)
