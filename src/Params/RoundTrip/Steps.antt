-- ===== src/Params/RoundTrip/Steps.antt =====
-- One round of the loop of `ngtcp2_transport_params_decode_versioned`, on a parameter as it is sent.
use zngtcp.Base.{
  ℕ, zero, suc, ◌+◌, ◌≤◌, ◌<◌, ◌≡◌, refl, ap, ◌∙◌, List, [], ◌∷◌, ◌++◌, append_assoc, Bool, true,
  false, ok, length, length-append, All, arith,
}
use zngtcp.Conv.{IsByte}
use zngtcp.Conv.Write.{encoding, encoding-IsByte, All-append}
use zngtcp.Params.{TransportParams}
use zngtcp.Params.Decode.Whole.{param_id, decode_value, decode_param, decode_loop}
use zngtcp.Params.RoundTrip.Parts.{tlv, Part, wire, IsPart, AreParts, wire-IsByte}
use zngtcp.Params.RoundTrip.Reads.{field, encoding_pos, decode_varint-encoding}

-- The loop comes from the parameters `s` before the bytes `p` to `s'` before `q`, whatever its fuel.
pub record Leads (s : TransportParams) (p : List ℕ) (s' : TransportParams) (q : List ℕ)
    : Type 0 where
  pub run :
      (fuel : ℕ)
      → length p ≤ fuel
      → (left : ℕ) × (length q ≤ left) × (decode_loop fuel s p ≡ decode_loop left s' q)

pub Leads-trans :
    {s s' s'' : TransportParams} {p p' p'' : List ℕ}
    → Leads s p s' p'
    → Leads s' p' s'' p''
    → Leads s p s'' p''
Leads-trans a b = record {
  run = λ fuel enough.
      let (left, enough', e) = a.run fuel enough in
      let (left', enough'', e') = b.run left enough' in (left', enough'', e ∙ e');
}

loop_end : (left : ℕ) (s : TransportParams) → decode_loop left s [] ≡ ok s
unfolding decode_loop
loop_end zero s = refl
loop_end (suc left) s = refl

pub Leads-end :
    (s s' : TransportParams) (p : List ℕ) → Leads s p s' [] → decode_loop (length p) s p ≡ ok s'
Leads-end s s' p a = let (left, _, e) = a.run (length p) (omega arith) in e ∙ loop_end left s'

round :
    (s s' : TransportParams) (p q : List ℕ)
    → 2 ≤ length p
    → length q < length p
    → decode_param s p ≡ ok (s', q)
    → (fuel : ℕ) → length p ≤ fuel
    → (left : ℕ) × (length q ≤ left) × (decode_loop fuel s p ≡ decode_loop left s' q)
unfolding decode_loop
round s s' p q two lt e zero enough = absurd (omega (arith, two, enough))
round s s' p q two lt e (suc fuel) enough =
    (fuel, omega (arith, lt, enough), ground (arith, two, e))

split_tlv : (id : ℕ) (v r : List ℕ) → tlv id v ++ r ≡ encoding id ++ field v r
unfolding tlv
split_tlv id v r = simp (append_assoc)

length-field :
    (v r : List ℕ) → length (field v r) ≡ length (encoding (length v)) + length v + length r
length-field v r = omega (arith, length-append (encoding (length v)) (v ++ r), length-append v r)

field-IsByte : (id : ℕ) (v r : List ℕ) → IsPart id v → All IsByte r → All IsByte (field v r)
field-IsByte id v r part hr =
    All-append (encoding (length v)) (v ++ r) (encoding-IsByte (length v) part.size)
      (All-append v r part.bytes hr)

sent-Leads :
    (id : ℕ) (v r : List ℕ) (s s' : TransportParams)
    → IsPart id v
    → All IsByte r
    → decode_value (param_id id) s (field v r) ≡ ok (s', r)
    → Leads s (tlv id v ++ r) s' r
unfolding decode_param
sent-Leads id v r s s' part hr e =
    let size = length-append (encoding id) (field v r) in
    let rest = length-field v r in
    rw (split_tlv id v r) (record {
      run =
          round s s' (encoding id ++ field v r) r
            (omega (arith, size, rest, encoding_pos id, encoding_pos (length v)))
            (omega (arith, size, rest, encoding_pos id))
            (rw (decode_varint-encoding id (field v r) part.id_max (field-IsByte id v r part hr))
              e);
    })

-- A round on a parameter that is sent, and none on one that is not.
pub part-Leads :
    (b : Bool) (id : ℕ) (v : List ℕ) (ts : List Part) (s s' : TransportParams)
    → AreParts ((b, id, v) ∷ ts)
    → (b ≡ true
        → All IsByte (wire ts)
        → decode_value (param_id id) s (field v (wire ts)) ≡ ok (s', wire ts))
    → (b ≡ false → s ≡ s')
    → Leads s (wire ((b, id, v) ∷ ts)) s' (wire ts)
unfolding wire
part-Leads true id v ts s s' h taken kept =
    let hr = wire-IsByte ts h.1 in sent-Leads id v (wire ts) s s' (h.0 refl) hr (taken refl hr)
part-Leads false id v ts s s' h taken kept = record {
  run = λ fuel enough. (fuel, enough, ap (λ t. decode_loop fuel t (wire ts)) (kept refl));
}
