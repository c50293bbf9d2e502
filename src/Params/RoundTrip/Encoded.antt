-- ===== src/Params/RoundTrip/Encoded.antt =====
-- `ngtcp2_transport_params_encode_versioned` as a whole.
use zngtcp.Base.{
  ℕ, ◌/◌, ◌<◌, ◌≡◌, refl, List, [], ◌∷◌, Bool, true, false, none, some, Outcome, ok, err, nobuf,
  ==_refl, leb, length, length-append, arith, if◌then◌else◌,
}
use zngtcp.Conv.{varint_limit}
use zngtcp.Conv.Write.{encoding, encoding-IsByte}
use zngtcp.Params.{milliseconds, TransportParams}
use zngtcp.Params.Encode.{value_paramlen, write_value, lens, writes, sum_lens, write_all, encode}
use zngtcp.Params.RoundTrip.{IsCidSent, IsTokenSent, IsEncodable}
use zngtcp.Params.RoundTrip.Parts.{tlv, Part, wire, IsPart, AreParts, parts}
use zngtcp.Params.RoundTrip.Blocks.{
  preferred_IsPart, preferred_IsWritten, version_IsPart, version_IsWritten,
}
use zngtcp.Params.RoundTrip.Written.{
  IsWritten, encoding_size, varint_IsWritten, zero_IsWritten, cid_IsWritten, value_IsWritten,
}

infixr 3 ◌&◌
data AreWritten
    : List (Bool × Outcome ℕ) → List (Bool × Outcome (List ℕ)) → List Part → Type 0 where
  all_written : AreWritten [] [] []
  ◌&◌ :
      {d : Bool} {l : Outcome ℕ} {w : Outcome (List ℕ)} {id : ℕ} {v : List ℕ}
      {ls : List (Bool × Outcome ℕ)} {ws : List (Bool × Outcome (List ℕ))} {ts : List Part}
      → (d ≡ true → IsWritten l w id v)
      → AreWritten ls ws ts
      → AreWritten ((d, l) ∷ ls) ((d, w) ∷ ws) ((d, id, v) ∷ ts)

abbrev Totals : List (Bool × Outcome ℕ) → List (Bool × Outcome (List ℕ)) → List Part → Type 0
Totals ls ws ts = (sum_lens ls ≡ ok (length (wire ts))) × (write_all ws ≡ ok (wire ts))

one_more :
    (d : Bool) (l : Outcome ℕ) (w : Outcome (List ℕ)) (id : ℕ) (v : List ℕ)
    (ls : List (Bool × Outcome ℕ)) (ws : List (Bool × Outcome (List ℕ))) (ts : List Part)
    → (d ≡ true → IsWritten l w id v)
    → Totals ls ws ts
    → Totals ((d, l) ∷ ls) ((d, w) ∷ ws) ((d, id, v) ∷ ts)
unfolding sum_lens write_all wire
one_more true l w id v ls ws ts part rest = (
  rw ((part refl).len, rest.0, length-append (tlv id v) (wire ts)),
  rw ((part refl).bytes, rest.1),
)
one_more false l w id v ls ws ts part rest = rest

totals :
    {ls : List (Bool × Outcome ℕ)} {ws : List (Bool × Outcome (List ℕ))} {ts : List Part}
    → AreWritten ls ws ts
    → Totals ls ws ts
unfolding sum_lens write_all wire
totals all_written = (refl, refl)
totals (part & rest) = one_more _ _ _ _ _ _ _ _ part (totals rest)

infixr 3 ◌⨾◌
abbrev ◌⨾◌ {ℓ κ} : {A : Type ℓ} {B : Type κ} → A → B → A × B
a ⨾ b = (a, b)

number_IsPart : (id n : ℕ) → id < varint_limit → n < varint_limit → IsPart id (encoding n)
number_IsPart id n hi hn = record {
  id_max = hi;
  size = omega (arith, encoding_size n hn);
  bytes = encoding-IsByte n hn;
}

cid_IsPart : (id : ℕ) (cid : List ℕ) → id < varint_limit → IsCidSent cid → IsPart id cid
cid_IsPart id cid hi h = record { id_max = hi; size = omega (arith, h.size); bytes = h.bytes }

token_IsPart : (id : ℕ) (token : List ℕ) → id < varint_limit → IsTokenSent token → IsPart id token
token_IsPart id token hi h = record { id_max = hi; size = omega (arith, h.size); bytes = h.bytes }

token_IsWritten :
    (token : List ℕ)
    → IsTokenSent token
    → IsWritten (value_paramlen 0x02 16) (write_value 0x02 16 token) 0x02 token
token_IsWritten token h =
    value_IsWritten 0x02 16 token (omega arith) (omega (arith, h.size)) (omega (arith, h.size))

zero_IsPart : (id : ℕ) → id < varint_limit → IsPart id []
zero_IsPart id hi = record { id_max = hi; size = omega arith; bytes = tt }

pub parts-AreParts : (s : TransportParams) → IsEncodable s → AreParts (parts s)
parts-AreParts s h =
    (λ e. cid_IsPart 0x00 s.original_dcid (omega arith) (h.original e))
    ⨾ (λ e. token_IsPart 0x02 s.stateless_reset_token (omega arith) (h.token e))
    ⨾ (λ e. preferred_IsPart s.preferred_addr (h.preferred e))
    ⨾ (λ e. cid_IsPart 0x10 s.retry_scid (omega arith) (h.retry e))
    ⨾ (λ e. cid_IsPart 0x0F s.initial_scid (omega arith) (h.initial e))
    ⨾ (λ e.
        number_IsPart 0x05 s.initial_max_stream_data_bidi_local (omega arith)
          (omega (arith, h.bidi_local)))
    ⨾ (λ e.
        number_IsPart 0x06 s.initial_max_stream_data_bidi_remote (omega arith)
          (omega (arith, h.bidi_remote)))
    ⨾ (λ e. number_IsPart 0x07 s.initial_max_stream_data_uni (omega arith) (omega (arith, h.uni)))
    ⨾ (λ e. number_IsPart 0x04 s.initial_max_data (omega arith) (omega (arith, h.max_data)))
    ⨾ (λ e.
        number_IsPart 0x08 s.initial_max_streams_bidi (omega arith) (omega (arith, h.streams_bidi)))
    ⨾ (λ e.
        number_IsPart 0x09 s.initial_max_streams_uni (omega arith) (omega (arith, h.streams_uni)))
    ⨾ (λ e. number_IsPart 0x03 s.max_udp_payload_size (omega arith) (omega (arith, h.payload)))
    ⨾ (λ e. number_IsPart 0x0A s.ack_delay_exponent (omega arith) (omega (arith, h.exponent)))
    ⨾ (λ e. zero_IsPart 0x0C (omega arith))
    ⨾ (λ e.
        number_IsPart 0x0B (s.max_ack_delay / milliseconds) (omega arith) (omega (arith, h.delay)))
    ⨾ (λ e.
        number_IsPart 0x01 (s.max_idle_timeout / milliseconds) (omega arith)
          (omega (arith, h.idle)))
    ⨾ (λ e. number_IsPart 0x0E s.active_connection_id_limit (omega arith) (omega (arith, h.limit)))
    ⨾ (λ e. number_IsPart 0x20 s.max_datagram_frame_size (omega arith) (omega (arith, h.datagram)))
    ⨾ (λ e. zero_IsPart 0x2AB2 (omega arith))
    ⨾ (λ e. version_IsPart s.version_info (h.versions e))
    ⨾ tt

parts-AreWritten : (s : TransportParams) → IsEncodable s → AreWritten (lens s) (writes s) (parts s)
parts-AreWritten s h =
    (λ e. cid_IsWritten 0x00 s.original_dcid (omega arith) (h.original e).size)
    & (λ e. token_IsWritten s.stateless_reset_token (h.token e))
    & (λ e. preferred_IsWritten s.preferred_addr (h.preferred e))
    & (λ e. cid_IsWritten 0x10 s.retry_scid (omega arith) (h.retry e).size)
    & (λ e. cid_IsWritten 0x0F s.initial_scid (omega arith) (h.initial e).size)
    & (λ e.
        varint_IsWritten 0x05 s.initial_max_stream_data_bidi_local (omega arith)
          (omega (arith, h.bidi_local)))
    & (λ e.
        varint_IsWritten 0x06 s.initial_max_stream_data_bidi_remote (omega arith)
          (omega (arith, h.bidi_remote)))
    & (λ e.
        varint_IsWritten 0x07 s.initial_max_stream_data_uni (omega arith) (omega (arith, h.uni)))
    & (λ e. varint_IsWritten 0x04 s.initial_max_data (omega arith) (omega (arith, h.max_data)))
    & (λ e.
        varint_IsWritten 0x08 s.initial_max_streams_bidi (omega arith)
          (omega (arith, h.streams_bidi)))
    & (λ e.
        varint_IsWritten 0x09 s.initial_max_streams_uni (omega arith)
          (omega (arith, h.streams_uni)))
    & (λ e. varint_IsWritten 0x03 s.max_udp_payload_size (omega arith) (omega (arith, h.payload)))
    & (λ e. varint_IsWritten 0x0A s.ack_delay_exponent (omega arith) (omega (arith, h.exponent)))
    & (λ e. zero_IsWritten 0x0C (omega arith))
    & (λ e.
        varint_IsWritten 0x0B (s.max_ack_delay / milliseconds) (omega arith)
          (omega (arith, h.delay)))
    & (λ e.
        varint_IsWritten 0x01 (s.max_idle_timeout / milliseconds) (omega arith)
          (omega (arith, h.idle)))
    & (λ e.
        varint_IsWritten 0x0E s.active_connection_id_limit (omega arith) (omega (arith, h.limit)))
    & (λ e.
        varint_IsWritten 0x20 s.max_datagram_frame_size (omega arith) (omega (arith, h.datagram)))
    & (λ e. zero_IsWritten 0x2AB2 (omega arith))
    & (λ e. version_IsWritten s.version_info (h.versions e))
    & all_written

pub encoded_size :
    (s : TransportParams) → IsEncodable s → encode none s ≡ ok (length (wire (parts s)), [])
unfolding encode
encoded_size s h = rw (totals (parts-AreWritten s h)).0

pub encoded_bytes :
    (destlen : ℕ) (s : TransportParams)
    → IsEncodable s
    → encode (some destlen) s ≡ (
        if leb (length (wire (parts s))) destlen
        then ok (length (wire (parts s)), wire (parts s))
        else err nobuf)
unfolding encode
encoded_bytes destlen s h =
    let (sized, written) = totals (parts-AreWritten s h) in
    ground (arith, sized, written, ==_refl (length (wire (parts s))))
