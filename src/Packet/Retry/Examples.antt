-- ===== src/Packet/Retry/Examples.antt =====
-- A Retry packet of version 1 with a tag that is made of zeros, and a Stateless Reset packet.
use zngtcp.Base.{
  ℕ, ◌/◌, ◌-◌, ◌%◌, ◌≤◌, ◌≡◌, ◌↔◌, refl, List, [], ◌∷◌, ◌++◌, some, ok, err, nobuf, leb, length,
  take, drop, arith, if◌then◌else◌,
}
use zngtcp.Packet.VersionCid.{is_supported_version}
use zngtcp.Packet.Header.Decode.{decode_hd_long}
use zngtcp.Packet.Header.RoundTrip.Reads.{received}
use zngtcp.Packet.Retry.{
  PktRetry, Encrypt, same_bytes, nonce, write_retry, decode_retry, verify_retry_tag,
}
use zngtcp.Packet.Retry.Verified.{verify_retry_tag-write_retry}
use zngtcp.Packet.Retry.Verified.Tagged.{MakesTags, CanRetry, retry_hd, verify_retry_tag-made}
use zngtcp.Packet.StatelessReset.{
  write_stateless_reset2, decode_stateless_reset, decode-write_stateless_reset,
}

abbrev sixteen : ℕ → List ℕ
sixteen b = b ∷ b ∷ b ∷ b ∷ b ∷ b ∷ b ∷ b ∷ b ∷ b ∷ b ∷ b ∷ b ∷ b ∷ b ∷ b ∷ []

-- The tag has the number of the bytes.
abbrev count : Encrypt
count n aad = ok (sixteen (length aad % 256))

count-MakesTags : MakesTags count
count-MakesTags = record {
  tag = λ n aad. sixteen (length aad % 256);
  made = λ n aad. refl;
  taglen = λ n aad. refl;
  bytes = λ n aad. omega arith;
}

abbrev odcid : List ℕ
odcid = 1 ∷ 2 ∷ 3 ∷ 4 ∷ 5 ∷ 6 ∷ 7 ∷ 8 ∷ []

can_retry : CanRetry 1 (5 ∷ 6 ∷ []) (7 ∷ []) odcid (9 ∷ 9 ∷ [])
unfolding is_supported_version same_bytes
can_retry = record {
  supported = refl;
  fresh = refl;
  odcidlen = omega arith;
  cids = omega arith;
  dcid_bytes = omega arith;
  scid_bytes = omega arith;
  token_bytes = omega arith;
  some_token = omega arith;
  fits = omega arith;
}

abbrev first_retry : PktRetry
first_retry = record { odcid = odcid; token = []; tag = [] }

verify_retry_tag-write_retry_example :
    (pkt : List ℕ) × (ret : PktRetry) × (write_retry
        (some count)
        1200
        1
        (5 ∷ 6 ∷ [])
        (7 ∷ [])
        odcid
        (9 ∷ 9 ∷ [])
      ≡ (if leb (length pkt) 1200 then ok pkt else err nobuf))
    × (decode_hd_long pkt ≡ ok (received (retry_hd 1 (5 ∷ 6 ∷ []) (7 ∷ [])), 10))
    × (decode_retry first_retry (drop 10 pkt) ≡ ok ret)
    × (ret.token ≡ 9 ∷ 9 ∷ [])
    × (verify_retry_tag (some count) 1 ret pkt ≡ ok tt)
verify_retry_tag-write_retry_example =
    verify_retry_tag-write_retry count 1 (5 ∷ 6 ∷ []) (7 ∷ []) odcid (9 ∷ 9 ∷ []) count-MakesTags
      can_retry 1200 first_retry refl

verify_retry_tag-made_example :
    (verify_retry_tag (some count) 1 first_retry ((9 ∷ 9 ∷ []) ++ sixteen 0) ≡ ok tt)
    ↔ ([] ≡ count-MakesTags.tag (nonce 1) (8 ∷ (odcid ++ (9 ∷ 9 ∷ []))))
verify_retry_tag-made_example =
    verify_retry_tag-made count count-MakesTags 1 first_retry (9 ∷ 9 ∷ []) (sixteen 0) (omega arith)
      (omega arith) (omega arith)

decode-write_stateless_reset_example :
    (first : ℕ) × (p : List ℕ) × (write_stateless_reset2 22 (sixteen 3) (200 ∷ sixteen 1)
      ≡ ok (first ∷ (p ++ sixteen 3)))
    × (first / 64 ≡ 1)
    × (length (first ∷ (p ++ sixteen 3)) ≤ 22)
    × (p ≡ take (22 - 17) (sixteen 1))
    × (decode_stateless_reset (first ∷ (p ++ sixteen 3))
        ≡ ok (record { token = sixteen 3; rand = first ∷ p }))
decode-write_stateless_reset_example =
    decode-write_stateless_reset 22 200 (sixteen 1) (sixteen 3) (omega arith) (omega arith)
      (omega arith) (omega arith)
