-- ===== src/Params/Safe/Whole.antt =====
-- `ngtcp2_transport_params_decode_versioned` as a whole, at any bytes.
use zngtcp.Base.{
  ℕ, zero, suc, ◌*◌, ◌^◌, ◌≤◌, ◌<◌, ◌≡◌, refl, ap, ◌⊎◌, inl, inr, List, true, Outcome, ok, err,
  fault, ◌>>=◌, malformed_transport_param, leb, ◌==◌, length, All, arith, Bool-cases, ◌≢◌,
}
use zngtcp.Conv.{IsByte}
use zngtcp.Params.{
  milliseconds, max_streams, TransportParams, defaults, ParamId, original_destination_connection_id,
  max_idle_timeout_id, stateless_reset_token_id, max_udp_payload_size_id, initial_max_data_id,
  initial_max_stream_data_bidi_local_id, initial_max_stream_data_bidi_remote_id,
  initial_max_stream_data_uni_id, initial_max_streams_bidi_id, initial_max_streams_uni_id,
  ack_delay_exponent_id, max_ack_delay_id, disable_active_migration_id, preferred_address,
  active_connection_id_limit_id, initial_source_connection_id, retry_source_connection_id,
  version_information, max_datagram_frame_size_id, grease_quic_bit_id, other,
}
use zngtcp.Params.Decode.{check_versions, decode_varint_param, decode_cid_param, idle_timeout}
use zngtcp.Params.Decode.Whole.{param_id, decode_value, decode_param, decode_loop, decode}
use zngtcp.Params.Safe.{Safe, Safe-bind, Safe-require, Advances, IsRead, decode_varint-Safe}
use zngtcp.Params.Safe.Values.{
  IsCid, IsToken, decode_varint_param-Safe, decode_zero_param-Safe, decode_cid_param-Safe,
  decode_reset_token-Safe, skip_unknown-Safe,
}
use zngtcp.Params.Safe.Compound.{
  IsPreferred, IsPreferredAt, AreVersions, IsVersionInfo, IsVersionInfoAt,
  decode_preferred_addr-Safe, decode_version_info-Safe,
}

-- Parameters that RFC 9000 and RFC 9368 allow a peer to send.
pub record IsAcceptable (s : TransportParams) : Type 0 where
  pub streams_bidi : s.initial_max_streams_bidi ≤ max_streams
  pub streams_uni : s.initial_max_streams_uni ≤ max_streams
  pub exponent : s.ack_delay_exponent ≤ 20
  pub delay : s.max_ack_delay < 16384 * milliseconds
  pub idle : s.max_idle_timeout < 2 ^ 64
  pub original : length s.original_dcid ≤ 20
  pub initial : length s.initial_scid ≤ 20
  pub retry : length s.retry_scid ≤ 20
  pub token : length s.stateless_reset_token ≡ 16
  pub preferred : s.preferred_addr_present ≡ true → IsPreferred s.preferred_addr
  pub versions : s.version_info_present ≡ true → IsVersionInfo s.version_info
  pub available : AreVersions s.version_info.available_versions

abbrev IsAcceptableAt : List ℕ → TransportParams × List ℕ → Type 0
IsAcceptableAt p r = IsAcceptable r.0 × Advances p r.1

module _ (s : TransportParams) (p : List ℕ) (h : All IsByte p) (v : IsAcceptable s) where
  number :
      (f : ℕ × List ℕ → Outcome (TransportParams × List ℕ))
      → ((r : ℕ × List ℕ) → IsRead p r → Safe (IsAcceptableAt p) (f r))
      → Safe (IsAcceptableAt p) (decode_varint_param p >>= f)
  number f k = Safe-bind (IsRead p) (IsAcceptableAt p) _ _ (decode_varint_param-Safe p h) k

  cid :
      (f : List ℕ × List ℕ → Outcome (TransportParams × List ℕ))
      → ((r : List ℕ × List ℕ) → IsCid p r → Safe (IsAcceptableAt p) (f r))
      → Safe (IsAcceptableAt p) (decode_cid_param p >>= f)
  cid f k = Safe-bind (IsCid p) (IsAcceptableAt p) _ _ (decode_cid_param-Safe p h) k

  decode_value-Safe : (id : ParamId) → Safe (IsAcceptableAt p) (decode_value id s p)
  unfolding decode_value idle_timeout
  decode_value-Safe initial_max_stream_data_bidi_local_id = number _ λ r q. ground (arith, v, q)
  decode_value-Safe initial_max_stream_data_bidi_remote_id = number _ λ r q. ground (arith, v, q)
  decode_value-Safe initial_max_stream_data_uni_id = number _ λ r q. ground (arith, v, q)
  decode_value-Safe initial_max_data_id = number _ λ r q. ground (arith, v, q)
  decode_value-Safe initial_max_streams_bidi_id = number _ λ r q. ground (arith, v, q)
  decode_value-Safe initial_max_streams_uni_id = number _ λ r q. ground (arith, v, q)
  decode_value-Safe max_idle_timeout_id = number _ λ r q. ground (arith, v, q)
  decode_value-Safe max_udp_payload_size_id = number _ λ r q. ground (arith, v, q)
  decode_value-Safe stateless_reset_token_id =
      Safe-bind (IsToken p) (IsAcceptableAt p) _ _ (decode_reset_token-Safe p h)
        λ r q. ground (arith, v, q)
  decode_value-Safe ack_delay_exponent_id = number _ λ r q. ground (arith, v, q)
  decode_value-Safe preferred_address =
      Safe-bind (IsPreferredAt p) (IsAcceptableAt p) _ _
        (decode_preferred_addr-Safe s.preferred_addr p h) λ r q. ground (arith, v, q)
  decode_value-Safe disable_active_migration_id =
      Safe-bind (Advances p) (IsAcceptableAt p) _ _ (decode_zero_param-Safe p h)
        λ r q. ground (arith, v, q)
  decode_value-Safe original_destination_connection_id = cid _ λ r q. ground (arith, v, q)
  decode_value-Safe retry_source_connection_id = cid _ λ r q. ground (arith, v, q)
  decode_value-Safe initial_source_connection_id = cid _ λ r q. ground (arith, v, q)
  decode_value-Safe max_ack_delay_id = number _ λ r q. ground (arith, v, q)
  decode_value-Safe active_connection_id_limit_id = number _ λ r q. ground (arith, v, q)
  decode_value-Safe max_datagram_frame_size_id = number _ λ r q. ground (arith, v, q)
  decode_value-Safe grease_quic_bit_id =
      Safe-bind (Advances p) (IsAcceptableAt p) _ _ (decode_zero_param-Safe p h)
        λ r q. ground (arith, v, q)
  decode_value-Safe version_information =
      Safe-bind (IsVersionInfoAt p) (IsAcceptableAt p) _ _
        (decode_version_info-Safe s.version_info p h v.available) λ r q. ground (arith, v, q)
  decode_value-Safe other =
      Safe-bind (Advances p) (IsAcceptableAt p) _ _ (skip_unknown-Safe p h)
        λ r q. ground (arith, v, q)

shorter_still :
    (p q : List ℕ)
    → length q < length p
    → (r : TransportParams × List ℕ) → IsAcceptableAt q r
    → IsAcceptableAt p r
shorter_still p q lt r (a, adv) =
    (a, record { bytes = adv.bytes; shorter = omega (arith, lt, adv.shorter) })

Safe-weaken {ℓ} :
    {A : Type ℓ} (P Q : A → Type 0) (m : Outcome A) → ((a : A) → P a → Q a) → Safe P m → Safe Q m
Safe-weaken P Q (ok a) k h = k a h
Safe-weaken P Q (err e) k h = h
Safe-weaken P Q fault k h = h

pub decode_param-Safe :
    (s : TransportParams) (p : List ℕ)
    → All IsByte p
    → IsAcceptable s
    → Safe (IsAcceptableAt p) (decode_param s p)
unfolding decode_param
decode_param-Safe s p h v =
    Safe-bind (IsRead p) (IsAcceptableAt p) _ _ (decode_varint-Safe p h) λ (n, q) (lt, adv).
      Safe-weaken (IsAcceptableAt q) (IsAcceptableAt p) (decode_value (param_id n) s q)
        (shorter_still p q adv.shorter) (decode_value-Safe s q adv.bytes v (param_id n))

decode_loop-Safe :
    (fuel : ℕ) (s : TransportParams) (p : List ℕ)
    → length p ≤ fuel
    → All IsByte p
    → IsAcceptable s
    → Safe IsAcceptable (decode_loop fuel s p)
unfolding decode_loop
decode_loop-Safe zero s p enough h v = ground (arith, enough, v)
decode_loop-Safe (suc fuel) s p enough h v = elim (Bool-cases (leb 2 (length p))) [
  | inl more ↦ rw more (
      Safe-bind (IsAcceptableAt p) IsAcceptable (decode_param s p) _ (decode_param-Safe s p h v)
        λ (s', q) (v', adv). decode_loop-Safe fuel s' q (omega (arith, adv.shorter)) adv.bytes v')
  | inr over ↦ rw over (Safe-require IsAcceptable (length p == 0) (ok s) λ e. v)
]

defaults-IsAcceptable : IsAcceptable defaults
unfolding check_versions
defaults-IsAcceptable = record {
  streams_bidi = omega arith;
  streams_uni = omega arith;
  exponent = omega arith;
  delay = omega arith;
  idle = omega arith;
  original = omega arith;
  initial = omega arith;
  retry = omega arith;
  token = refl;
  preferred = λ e. cc;
  versions = λ e. cc;
  available = refl;
}

Safe-cases {ℓ} :
    {A : Type ℓ} (P : A → Type 0) (m : Outcome A)
    → Safe P m
    → ((a : A) × (m ≡ ok a) × P a) ⊎ (m ≡ err malformed_transport_param)
Safe-cases P (ok a) h = inl (a, refl, h)
Safe-cases P (err e) h = inr (ap err h)
Safe-cases P fault h = absurd h

-- Whatever bytes a peer sends, `ngtcp2_transport_params_decode` ends and never reads outside of
-- them. What it accepts is within the limits that it checks: at most 2 ^ 60 streams of each kind,
-- an ack_delay_exponent of at most 20, a max_ack_delay below 2 ^ 14 milliseconds, connection IDs of
-- at most 20 bytes, a reset token of 16, a preferred address with a connection ID that is not
-- empty, and versions other than 0. All else it refuses with NGTCP2_ERR_MALFORMED_TRANSPORT_PARAM.
-- Nothing is said of the least max_udp_payload_size and active_connection_id_limit, which are not
-- checked here but in `ngtcp2_conn_set_remote_transport_params`.
pub decode-IsAcceptable :
    (p : List ℕ)
    → All IsByte p
    → ((s : TransportParams) × (decode p ≡ ok s) × IsAcceptable s)
      ⊎ (decode p ≡ err malformed_transport_param)
unfolding decode
decode-IsAcceptable p h =
    Safe-cases IsAcceptable _
      (decode_loop-Safe (length p) defaults p (omega arith) h defaults-IsAcceptable)

loop_rounds :
    (m n : ℕ) (s : TransportParams) (p : List ℕ)
    → length p ≤ m
    → length p ≤ n
    → All IsByte p
    → IsAcceptable s
    → decode_loop m s p ≡ decode_loop n s p
unfolding decode_loop
loop_rounds zero zero s p hm hn h v = refl
loop_rounds zero (suc n) s p hm hn h v = ground (arith, hm)
loop_rounds (suc m) zero s p hm hn h v = ground (arith, hn)
loop_rounds (suc m) (suc n) s p hm hn h v =
    elim (Safe-cases (IsAcceptableAt p) (decode_param s p) (decode_param-Safe s p h v)) [
      | inr bad ↦ ground (arith, bad)
      | inl ((s', q), is, (v', adv)) ↦
          let rest =
            loop_rounds m n s' q (omega (arith, hm, adv.shorter)) (omega (arith, hn, adv.shorter))
              adv.bytes v' in
          ground (arith, is, rest)
    ]

-- The loop of `ngtcp2_transport_params_decode_versioned` ends: whatever the bytes are, it makes at
-- most as many rounds as there are bytes, so that more rounds never change the result, and the rounds
-- that the model allows are never used up before the end.
pub decode-rounds :
    (rounds : ℕ) (p : List ℕ)
    → All IsByte p
    → length p ≤ rounds
    → (decode_loop rounds defaults p ≡ decode p) × (decode p ≢ fault)
decode-rounds rounds p h enough = (
  unfold decode in
      loop_rounds rounds (length p) defaults p enough (omega arith) h defaults-IsAcceptable,
  elim (decode-IsAcceptable p h) [ inl (s, is, _) ↦ λ e. cc | inr bad ↦ λ e. cc ],
)
