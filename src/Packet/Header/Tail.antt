-- ===== src/Packet/Header/Tail.antt =====
-- The token and Length of a long header, as `ngtcp2_pkt_decode_hd_long` of lib/ngtcp2_pkt.c decodes
-- them, and the layout.
use zngtcp.Base.{
  ℕ, ◌+◌, ◌-◌, ◌≤◌, ◌≡◌, refl, ap, ◌∙◌, ◌⊎◌, inl, inr, List, [], ◌∷◌, none, some, Bool-cases, ok,
  err, invalid_argument, ltb, length, drop, take, length-drop, length-take, All, arith,
}
use zngtcp.Conv.{IsByte}
use zngtcp.Conv.Read.{read_varint, value, rest, first_len, varint_cases, All-drop}
use zngtcp.Frame.Layout.{read_block, read_bytes}
use zngtcp.Packet.Header.{
  PktType, version_negotiation, initial, zero_rtt, handshake, retry, one_rtt,
}
use zngtcp.Packet.Header.Decode.{min_len, decode_token, decode_length, decode_tail}
use zngtcp.Packet.Header.Layout.{read_tail}

-- The bytes from `r` on are cut short or malformed, and both readers say so.
pub record TailFails (pktlen : ℕ) (type : PktType) (len : ℕ) (r : List ℕ) : Type 0 where
  pub unread : read_tail type r ≡ none
  pub refused : len ≤ pktlen → decode_tail pktlen type len r ≡ err invalid_argument

-- Both read the same, and the decoder counts it.
pub record TailReads (pktlen : ℕ) (type : PktType) (len : ℕ) (r : List ℕ) : Type 0 where
  pub ntokenlen : ℕ
  pub token : List ℕ
  pub nlonglen : ℕ
  pub longlen : ℕ
  pub q : List ℕ
  pub enough : len ≤ pktlen
  pub reads : read_tail type r ≡ some ((token, longlen), q)
  pub decodes :
      decode_tail pktlen type len r ≡ ok (ntokenlen, token, nlonglen, longlen, pktlen - length q)
  pub counted : ntokenlen + length token + nlonglen + length q ≡ length r

abbrev TailAgrees : ℕ → PktType → List ℕ → Type 0
TailAgrees k type r =
    let pktlen = k + length r in
    let len = k + (min_len type - 7) in TailFails pktlen type len r ⊎ TailReads pktlen type len r

bare_tail :
    (k : ℕ) (type : PktType) (r : List ℕ)
    → min_len type ≡ 7
    → read_tail type r ≡ some (([], 0), r)
    → decode_tail (k + length r) type k r ≡ ok (0, [], 0, 0, k)
    → TailAgrees k type r
bare_tail k type r len reads decodes =
    let same : k + (min_len type - 7) ≡ k = omega (arith, len) in
    let at : k ≡ k + length r - length r = omega arith in
    inr (record {
      ntokenlen = 0;
      token = [];
      nlonglen = 0;
      longlen = 0;
      q = r;
      enough = omega (arith, len);
      reads = reads;
      decodes = rw (same) (decodes ∙ ap (λ n. ok (0, [], 0, 0, n)) at);
      counted = omega arith;
    })

length_tail : (k : ℕ) (r : List ℕ) → All IsByte r → TailAgrees k zero_rtt r
unfolding read_tail decode_tail decode_length decode_token
length_tail k r h = elim (varint_cases r h) [
  | inl cut ↦ inl (record { unread = ground (arith, cut); refused = ground (arith, cut) })
  | inr w ↦ inr (record {
    ntokenlen = 0;
    token = [];
    nlonglen = first_len r;
    longlen = value r;
    q = rest r;
    enough = ground (arith, w);
    reads = ground (arith, w);
    decodes = ground (arith, w);
    counted = ground (arith, w);
  })
]

read_varint-empty : (p : List ℕ) → length p ≡ 0 → read_varint p ≡ none
unfolding read_varint
read_varint-empty [] e = refl
read_varint-empty (b ∷ p) e = absurd (omega (arith, e))

initial_tail : (k : ℕ) (r : List ℕ) → All IsByte r → TailAgrees k initial r
unfolding read_tail decode_tail decode_length decode_token read_block read_bytes
initial_tail k r h = elim (varint_cases r h) [
  | inl cut ↦ inl (record { unread = ground (arith, cut); refused = ground (arith, cut) })
  | inr w ↦ elim (Bool-cases (ltb (value r) (length (rest r)))) [
    | inr long ↦ inl (record {
      unread = ground (
        arith,
        w,
        long,
        read_varint-empty (drop (value r) (rest r)),
        length-drop (value r) (rest r),
      );
      refused = ground (arith, w, long);
    })
    | inl fits ↦
        let q = drop (value r) (rest r) in
        elim (varint_cases q (All-drop (value r) (rest r) w.bytes)) [
          | inl cut ↦ inl (record {
            unread = ground (arith, w, fits, cut);
            refused = ground (arith, w, fits, cut, length-drop (value r) (rest r));
          })
          | inr v ↦ inr (record {
            ntokenlen = first_len r;
            token = take (value r) (rest r);
            nlonglen = first_len q;
            longlen = value q;
            q = rest q;
            enough = ground (arith, w, fits);
            reads = ground (arith, w, v, fits);
            decodes = ground (arith, w, v, fits, length-drop (value r) (rest r));
            counted =
                ground (
                  arith,
                  w,
                  v,
                  fits,
                  length-drop (value r) (rest r),
                  length-take (value r) (rest r),
                );
          })
        ]
  ]
]

tail-agrees : (k : ℕ) (type : PktType) (r : List ℕ) → All IsByte r → TailAgrees k type r
unfolding read_tail decode_tail decode_length decode_token
tail-agrees k initial r h = initial_tail k r h
tail-agrees k zero_rtt r h = length_tail k r h
tail-agrees k handshake r h = elim (length_tail k r h) [
  | inl f ↦ inl (record { unread = f.unread; refused = f.refused })
  | inr a ↦ inr (record {
    ntokenlen = a.ntokenlen;
    token = a.token;
    nlonglen = a.nlonglen;
    longlen = a.longlen;
    q = a.q;
    enough = a.enough;
    reads = a.reads;
    decodes = a.decodes;
    counted = a.counted;
  })
]
tail-agrees k one_rtt r h = elim (length_tail k r h) [
  | inl f ↦ inl (record { unread = f.unread; refused = f.refused })
  | inr a ↦ inr (record {
    ntokenlen = a.ntokenlen;
    token = a.token;
    nlonglen = a.nlonglen;
    longlen = a.longlen;
    q = a.q;
    enough = a.enough;
    reads = a.reads;
    decodes = a.decodes;
    counted = a.counted;
  })
]
tail-agrees k retry r h = bare_tail k retry r refl refl refl
tail-agrees k version_negotiation r h = bare_tail k version_negotiation r refl refl refl

pub min_len-ge : (type : PktType) → 7 ≤ min_len type
min_len-ge version_negotiation = omega arith
min_len-ge initial = omega arith
min_len-ge zero_rtt = omega arith
min_len-ge handshake = omega arith
min_len-ge retry = omega arith
min_len-ge one_rtt = omega arith

pub tail-agrees-at :
    (pktlen k len : ℕ) (type : PktType) (r : List ℕ)
    → pktlen ≡ k + length r
    → len ≡ k + (min_len type - 7)
    → All IsByte r
    → TailFails pktlen type len r ⊎ TailReads pktlen type len r
tail-agrees-at pktlen k len type r e e' h = rw (e, e') (tail-agrees k type r h)
