-- ===== src/Params/RoundTrip/Compounds.antt =====
-- The rounds on connection IDs, flags and compound parameters.
use zngtcp.Base.{ℕ, ◌≡◌, List, [], ◌∷◌, Bool, true, arith, if◌then◌else◌}
use zngtcp.Params.{PreferredAddr, VersionInfo, TransportParams, defaults}
use zngtcp.Params.Decode.Whole.{param_id, decode_value}
use zngtcp.Params.Encode.{preferred_addr_bytes, version_info_bytes}
use zngtcp.Params.RoundTrip.{IsCidSent, IsTokenSent, IsPreferredSent, IsVersionSent, received_addr}
use zngtcp.Params.RoundTrip.Parts.{Part, wire, AreParts}
use zngtcp.Params.RoundTrip.Reads.{
  decode_zero_param-field, decode_cid_param-field, decode_reset_token-field,
}
use zngtcp.Params.RoundTrip.Compound.{decode_preferred_addr-field, decode_version_info-field}
use zngtcp.Params.RoundTrip.Steps.{Leads, part-Leads}

module _ (s : TransportParams) (ts : List Part) (b : Bool) where
  pub original_Leads :
      (cid : List ℕ)
      → AreParts ((b, 0x00, cid) ∷ ts)
      → (b ≡ true → IsCidSent cid)
      → Leads s
          (wire ((b, 0x00, cid) ∷ ts))
          (record s {
            original_dcid = if b then cid else s.original_dcid;
            original_dcid_present = if b then true else s.original_dcid_present;
          })
          (wire ts)
  unfolding decode_value param_id
  original_Leads cid h sent =
      part-Leads b 0x00 cid ts s _ h
        (λ e hr.
          ground (arith, e, decode_cid_param-field cid (wire ts) (sent e).size (sent e).bytes hr))
        (λ e. rw e)

  pub retry_Leads :
      (cid : List ℕ)
      → AreParts ((b, 0x10, cid) ∷ ts)
      → (b ≡ true → IsCidSent cid)
      → Leads s
          (wire ((b, 0x10, cid) ∷ ts))
          (record s {
            retry_scid = if b then cid else s.retry_scid;
            retry_scid_present = if b then true else s.retry_scid_present;
          })
          (wire ts)
  unfolding decode_value param_id
  retry_Leads cid h sent =
      part-Leads b 0x10 cid ts s _ h
        (λ e hr.
          ground (arith, e, decode_cid_param-field cid (wire ts) (sent e).size (sent e).bytes hr))
        (λ e. rw e)

  pub initial_Leads :
      (cid : List ℕ)
      → AreParts ((b, 0x0F, cid) ∷ ts)
      → (b ≡ true → IsCidSent cid)
      → Leads s
          (wire ((b, 0x0F, cid) ∷ ts))
          (record s {
            initial_scid = if b then cid else s.initial_scid;
            initial_scid_present = if b then true else s.initial_scid_present;
          })
          (wire ts)
  unfolding decode_value param_id
  initial_Leads cid h sent =
      part-Leads b 0x0F cid ts s _ h
        (λ e hr.
          ground (arith, e, decode_cid_param-field cid (wire ts) (sent e).size (sent e).bytes hr))
        (λ e. rw e)

  pub migration_Leads :
      AreParts ((b, 0x0C, []) ∷ ts)
      → Leads s
          (wire ((b, 0x0C, []) ∷ ts))
          (record s { disable_active_migration = if b then true else s.disable_active_migration })
          (wire ts)
  unfolding decode_value param_id
  migration_Leads h =
      part-Leads b 0x0C [] ts s _ h (λ e hr. ground (arith, e, decode_zero_param-field (wire ts)))
        (λ e. rw e)

  pub grease_Leads :
      AreParts ((b, 0x2AB2, []) ∷ ts)
      → Leads s
          (wire ((b, 0x2AB2, []) ∷ ts))
          (record s { grease_quic_bit = if b then true else s.grease_quic_bit })
          (wire ts)
  unfolding decode_value param_id
  grease_Leads h =
      part-Leads b 0x2AB2 [] ts s _ h (λ e hr. ground (arith, e, decode_zero_param-field (wire ts)))
        (λ e. rw e)

  pub token_Leads :
      (token : List ℕ)
      → AreParts ((b, 0x02, token) ∷ ts)
      → (b ≡ true → IsTokenSent token)
      → Leads s
          (wire ((b, 0x02, token) ∷ ts))
          (record s {
            stateless_reset_token = if b then token else s.stateless_reset_token;
            stateless_reset_token_present = if b then true else s.stateless_reset_token_present;
          })
          (wire ts)
  unfolding decode_value param_id
  token_Leads token h sent =
      part-Leads b 0x02 token ts s _ h
        (λ e hr.
          ground
            (arith, e, decode_reset_token-field token (wire ts) (sent e).size (sent e).bytes hr))
        (λ e. rw e)

  pub preferred_Leads :
      (a : PreferredAddr)
      → s.preferred_addr ≡ defaults.preferred_addr
      → AreParts ((b, 0x0D, preferred_addr_bytes a) ∷ ts)
      → (b ≡ true → IsPreferredSent a)
      → Leads s
          (wire ((b, 0x0D, preferred_addr_bytes a) ∷ ts))
          (record s {
            preferred_addr = if b then received_addr a else s.preferred_addr;
            preferred_addr_present = if b then true else s.preferred_addr_present;
          })
          (wire ts)
  unfolding decode_value param_id
  preferred_Leads a first h sent =
      part-Leads b 0x0D (preferred_addr_bytes a) ts s _ h
        (λ e hr. ground (arith, e, first, decode_preferred_addr-field a (wire ts) (sent e) hr))
        (λ e. rw e)

  pub versions_Leads :
      (v : VersionInfo)
      → s.version_info ≡ defaults.version_info
      → AreParts ((b, 0x11, version_info_bytes v) ∷ ts)
      → (b ≡ true → IsVersionSent v)
      → Leads s
          (wire ((b, 0x11, version_info_bytes v) ∷ ts))
          (record s {
            version_info = if b then v else s.version_info;
            version_info_present = if b then true else s.version_info_present;
          })
          (wire ts)
  unfolding decode_value param_id
  versions_Leads v first h sent =
      part-Leads b 0x11 (version_info_bytes v) ts s _ h
        (λ e hr. ground (arith, e, first, decode_version_info-field v (wire ts) (sent e) hr))
        (λ e. rw e)
