-- ===== src/Params/Safe/Compound.antt =====
-- The preferred address and the version information, at any bytes.
use zngtcp.Base.{
  ℕ, zero, suc, ◌+◌, ◌-◌, ◌%◌, ◌≤◌, ◌<◌, ◌≡◌, refl, inl, inr, List, [], ◌∷◌, not, ◌||◌, ok, ◌>>=◌,
  ◌>>◌, ltb, leb, ◌==◌, length, All, arith, ◌*◌, ◌/◌, Bool-cases,
}
use zngtcp.Conv.{IsByte, peek, get_uint32be}
use zngtcp.Params.{PreferredAddr, VersionInfo}
use zngtcp.Params.Decode.{
  get_bytes, decode_addresses, decode_preferred_addr, check_versions, decode_version_info,
}
use zngtcp.Params.Safe.{
  Safe, Safe-bind, Safe-require, Advances, Passes, IsRead, IsSlice, get_bytes-Safe,
  decode_varint-Safe,
}

-- The sizes of the parts of a preferred address
pub record IsSized (a : PreferredAddr) : Type 0 where
  pub addr4 : length a.ipv4_addr ≡ 4
  pub port4 : length a.ipv4_port ≡ 2
  pub addr6 : length a.ipv6_addr ≡ 16
  pub port6 : length a.ipv6_port ≡ 2

abbrev IsAddresses : List ℕ → PreferredAddr × List ℕ → Type 0
IsAddresses q r = IsSized r.0 × Passes 24 q r.1

decode_addresses-Safe :
    (a : PreferredAddr) (q : List ℕ)
    → All IsByte q
    → 24 ≤ length q
    → Safe (IsAddresses q) (decode_addresses a q)
unfolding decode_addresses
decode_addresses-Safe a q h fits =
    let Q = IsAddresses q in
    Safe-bind (IsSlice 4 q) Q _ _ (get_bytes-Safe 4 q h (omega arith)) λ (addr4, q1) s1.
      Safe-bind (IsSlice 2 q1) Q _ _ (get_bytes-Safe 2 q1 s1.2.bytes (omega (arith, s1.2.passed)))
        λ (port4, q2) s2.
          Safe-bind (IsSlice 16 q2) Q _ _
            (get_bytes-Safe 16 q2 s2.2.bytes (omega (arith, s1.2.passed, s2.2.passed)))
            λ (addr6, q3) s3.
              Safe-bind (IsSlice 2 q3) Q _ _
                (get_bytes-Safe 2 q3 s3.2.bytes
                  (omega (arith, s1.2.passed, s2.2.passed, s3.2.passed)))
                λ (port6, q4) s4. (
                  record { addr4 = s1.0; port4 = s2.0; addr6 = s3.0; port6 = s4.0 },
                  record {
                    bytes = s4.2.bytes;
                    passed = omega (arith, s1.2.passed, s2.2.passed, s3.2.passed, s4.2.passed);
                  },
                )

-- An address that the decoder accepts
pub record IsPreferred (a : PreferredAddr) : Type 0 where
  pub sized : IsSized a
  pub cid_pos : 1 ≤ length a.cid
  pub cid_max : length a.cid ≤ 20
  pub token : length a.reset_token ≡ 16

abbrev pub IsPreferredAt : List ℕ → PreferredAddr × List ℕ → Type 0
IsPreferredAt p r = IsPreferred r.0 × Advances p r.1

peek-Safe : (c : List ℕ) → length c ≡ 1 → Safe (λ n. peek c ≡ ok n) (peek c)
unfolding peek
peek-Safe [] e = absurd (omega (arith, e))
peek-Safe (b ∷ c) e = refl

pub decode_preferred_addr-Safe :
    (a : PreferredAddr) (p : List ℕ)
    → All IsByte p
    → Safe (IsPreferredAt p) (decode_preferred_addr a p)
unfolding decode_preferred_addr
decode_preferred_addr-Safe a p h =
    let Q = IsPreferredAt p in
    Safe-bind (IsRead p) Q _ _ (decode_varint-Safe p h) λ (v, q) (lt, adv).
      Safe-require Q (leb v (length q)) _ λ fits. Safe-require Q (leb 41 v) _ λ large.
        Safe-bind (IsAddresses q) Q _ _
          (decode_addresses-Safe a q adv.bytes (ground (arith, fits, large)))
          λ (a', q1) (sized, s1).
            Safe-bind (IsSlice 1 q1) Q _ _
              (get_bytes-Safe 1 q1 s1.bytes (ground (arith, fits, large, s1.passed)))
              λ (c, q2) s2.
                Safe-bind (λ n. peek c ≡ ok n) Q _ _ (peek-Safe c s2.0)
                  λ n at. Safe-require Q (not (not (v == 41 + n) || ltb 20 n || ltb n 1)) _ λ whole.
                    Safe-bind (IsSlice n q2) Q _ _
                      (get_bytes-Safe n q2 s2.2.bytes
                        (ground (arith, fits, whole, s1.passed, s2.2.passed)))
                      λ (cid, q3) s3.
                        Safe-bind (IsSlice 16 q3) Q _ _
                          (get_bytes-Safe 16 q3 s3.2.bytes
                            (ground (arith, fits, whole, s1.passed, s2.2.passed, s3.2.passed)))
                          λ (token, q4) s4. (
                            record {
                              sized = record {
                                addr4 = sized.addr4;
                                port4 = sized.port4;
                                addr6 = sized.addr6;
                                port6 = sized.port6;
                              };
                              cid_pos = ground (arith, whole, s3.0);
                              cid_max = ground (arith, whole, s3.0);
                              token = s4.0;
                            },
                            record {
                              bytes = s4.2.bytes;
                              shorter = omega (
                                arith, adv.shorter, s1.passed, s2.2.passed, s3.2.passed,
                                s4.2.passed,
                              );
                            },
                          )

-- All versions in the list are different from 0.
abbrev pub AreVersions : List ℕ → Type 0
AreVersions p = check_versions p ≡ ok tt

check_versions-Safe :
    (k : ℕ) (p : List ℕ) → length p ≡ 4 * k → Safe (λ _. AreVersions p) (check_versions p)
unfolding check_versions
check_versions-Safe k [] e = refl
check_versions-Safe zero (a ∷ p) e = absurd (omega (arith, e))
check_versions-Safe (suc k) (a ∷ b ∷ c ∷ d ∷ p) e =
    ground (arith, check_versions-Safe k p (omega (arith, e)))
check_versions-Safe (suc k) (a ∷ []) e = absurd (omega (arith, e))
check_versions-Safe (suc k) (a ∷ b ∷ []) e = absurd (omega (arith, e))
check_versions-Safe (suc k) (a ∷ b ∷ c ∷ []) e = absurd (omega (arith, e))

-- Version information that the decoder accepts
pub record IsVersionInfo (v : VersionInfo) : Type 0 where
  pub chosen : 0 < v.chosen_version
  pub available : AreVersions v.available_versions

abbrev pub IsVersionInfoAt : List ℕ → VersionInfo × List ℕ → Type 0
IsVersionInfoAt p r = IsVersionInfo r.0 × Advances p r.1

get_uint32be-Safe :
    (q : List ℕ) → All IsByte q → 4 ≤ length q → Safe (λ r. Passes 4 q r.1) (get_uint32be q)
unfolding get_uint32be
get_uint32be-Safe (a ∷ b ∷ c ∷ d ∷ q) h fits = record { bytes = h.1.1.1.1; passed = omega arith }
get_uint32be-Safe [] h fits = absurd (omega arith)
get_uint32be-Safe (a ∷ []) h fits = absurd (omega arith)
get_uint32be-Safe (a ∷ b ∷ []) h fits = absurd (omega arith)
get_uint32be-Safe (a ∷ b ∷ c ∷ []) h fits = absurd (omega arith)

available-Safe :
    (v chosen : ℕ) (p q : List ℕ)
    → All IsByte q
    → length q < length p
    → v - 4 ≤ length q
    → v % 4 ≡ 0
    → 4 < v
    → 0 < chosen
    → Safe (IsVersionInfoAt p) (do
      (versions, q2) ← get_bytes (v - 4) q
      check_versions versions
      ok (record { chosen_version = chosen; available_versions = versions }, q2))
available-Safe v chosen p q h shorter fits whole more pos =
    let Q = IsVersionInfoAt p in
    Safe-bind (IsSlice (v - 4) q) Q _ _ (get_bytes-Safe (v - 4) q h fits) λ (versions, q2) s.
      Safe-bind (λ _. AreVersions versions) Q _ _
        (check_versions-Safe ((v - 4) / 4) versions (omega (arith, s.0)))
        λ u good. (
          record { chosen = pos; available = good },
          record { bytes = s.2.bytes; shorter = omega (arith, s.2.passed) },
        )

pub decode_version_info-Safe :
    (i : VersionInfo) (p : List ℕ)
    → All IsByte p
    → AreVersions i.available_versions
    → Safe (IsVersionInfoAt p) (decode_version_info i p)
unfolding decode_version_info
decode_version_info-Safe i p h old =
    let Q = IsVersionInfoAt p in
    Safe-bind (IsRead p) Q _ _ (decode_varint-Safe p h) λ (v, q) (lt, adv).
      Safe-require Q (leb v (length q)) _ λ fits.
        Safe-require Q (not (ltb v 4 || not (v % 4 == 0))) _ λ whole.
          Safe-bind (λ r. Passes 4 q r.1) Q _ _
            (get_uint32be-Safe q adv.bytes (ground (arith, fits, whole)))
            λ (chosen, q1) s. Safe-require Q (not (chosen == 0)) _ λ pos.
              elim (Bool-cases (ltb 4 v)) [
                | inl more ↦ rw more (
                    available-Safe v chosen p q1 s.bytes (omega (arith, adv.shorter, s.passed))
                      (ground (arith, fits, s.passed)) (ground (arith, whole))
                      (ground (arith, more)) (ground (arith, pos)))
                | inr none_left ↦ rw none_left (
                  record { chosen = ground (arith, pos); available = old },
                  record { bytes = s.bytes; shorter = omega (arith, adv.shorter, s.passed) },
                )
              ]
