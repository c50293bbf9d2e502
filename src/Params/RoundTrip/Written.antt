-- ===== src/Params/RoundTrip/Written.antt =====
-- `ngtcp2_transport_params_encode_versioned` writes the parameters one after another, and announces
-- their length.
use zngtcp.Base.{
  ℕ, ◌+◌, ◌<◌, ◌≤◌, ◌≡◌, refl, List, [], ◌∷◌, ◌++◌, Outcome, ok, length, length-append, arith,
}
use zngtcp.Conv.{varint_limit}
use zngtcp.Conv.Write.{encoding, put_uvarint-encoding, put_uvarintlen-encoding}
use zngtcp.Params.Encode.{
  varint_paramlen, write_varint_param, zero_paramlen, write_zero_param, cid_paramlen,
  write_cid_param, value_paramlen, write_value,
}
use zngtcp.Params.RoundTrip.Parts.{tlv}

length-tlv :
    (id : ℕ) (v : List ℕ)
    → length (tlv id v) ≡ length (encoding id) + length (encoding (length v)) + length v
unfolding tlv
length-tlv id v = omega (
  arith,
  length-append (encoding id) (encoding (length v) ++ v),
  length-append (encoding (length v)) v,
)

-- A parameter is measured as `l` and written as `w`.
pub record IsWritten (l : Outcome ℕ) (w : Outcome (List ℕ)) (id : ℕ) (v : List ℕ) : Type 0 where
  pub len : l ≡ ok (length (tlv id v))
  pub bytes : w ≡ ok (tlv id v)

pub encoding_size : (n : ℕ) → n < varint_limit → length (encoding n) ≤ 8
unfolding encoding
encoding_size n h = ground arith

pub varint_IsWritten :
    (id n : ℕ)
    → id < varint_limit
    → n < varint_limit
    → IsWritten (varint_paramlen id n) (write_varint_param id n) id (encoding n)
unfolding varint_paramlen write_varint_param
varint_IsWritten id n hi hn =
    let size = encoding_size n hn in
    record {
      len = rw (
        put_uvarintlen-encoding n hn,
        put_uvarintlen-encoding id hi,
        put_uvarintlen-encoding (length (encoding n)) (omega (arith, size)),
        length-tlv id (encoding n),
      );
      bytes =
          unfold tlv in
          rw (
            put_uvarint-encoding id hi,
            put_uvarintlen-encoding n hn,
            put_uvarint-encoding (length (encoding n)) (omega (arith, size)),
            put_uvarint-encoding n hn,
          );
    }

zero_bytes : encoding 0 ≡ 0 ∷ []
unfolding encoding
zero_bytes = refl

zero_size : length (encoding 0) ≡ 1
unfolding encoding
zero_size = refl

pub zero_IsWritten :
    (id : ℕ) → id < varint_limit → IsWritten (zero_paramlen id) (write_zero_param id) id []
unfolding zero_paramlen write_zero_param
zero_IsWritten id hi = record {
  len = ground (arith, put_uvarintlen-encoding id hi, length-tlv id [], zero_size);
  bytes = unfold tlv in rw (put_uvarint-encoding id hi, zero_bytes);
}

pub cid_IsWritten :
    (id : ℕ) (cid : List ℕ)
    → id < varint_limit
    → length cid ≤ 20
    → IsWritten (cid_paramlen id cid) (write_cid_param id cid) id cid
unfolding cid_paramlen write_cid_param
cid_IsWritten id cid hi size =
    let small : length cid < varint_limit = omega arith in
    record {
      len = ground (
        arith,
        put_uvarintlen-encoding id hi,
        put_uvarintlen-encoding (length cid) small,
        length-tlv id cid,
      );
      bytes =
          unfold tlv in
          ground (arith, put_uvarint-encoding id hi, put_uvarint-encoding (length cid) small);
    }

pub value_IsWritten :
    (id n : ℕ) (v : List ℕ)
    → id < varint_limit
    → n ≡ length v
    → length v < varint_limit
    → IsWritten (value_paramlen id n) (write_value id n v) id v
unfolding value_paramlen write_value
value_IsWritten id n v hi e size = record {
  len =
      rw (
        e,
        put_uvarintlen-encoding id hi,
        put_uvarintlen-encoding (length v) size,
        length-tlv id v,
      );
  bytes = unfold tlv in rw (e, put_uvarint-encoding id hi, put_uvarint-encoding (length v) size);
}
