-- ===== src/Frame/Size.antt =====
-- How much data a frame can carry, and how long it is: `ngtcp2_pkt_stream_max_datalen`,
-- `ngtcp2_pkt_crypto_max_datalen` and `ngtcp2_pkt_datagram_framelen` of lib/ngtcp2_pkt.c.
use zngtcp.Base.{
  List, ℕ, ◌+◌, ◌-◌, ◌≤◌, min, ◌≡◌, refl, ap, inl, inr, ◌↔◌, ◌++◌, Option, none, some, Outcome, ok,
  ◌>>=◌, ltb, leb, ◌==◌, ◌&&◌, Bool-cases, length, length-append, if◌then◌else◌, arith,
}
use zngtcp.Conv.{put_uvarintlen}
use zngtcp.Conv.Write.{encoding, put_uvarintlen-encoding}
use zngtcp.Frame.{Frame, Stream}
use zngtcp.Frame.Wire.{concat, data_of, offset_wire, stream_wire, wire}
use zngtcp.Frame.Sendable.{IsVarint}

-- Where `left` bytes are left for the length field and the data.
unfoldable pub limit_datalen : ℕ → ℕ → ℕ
limit_datalen len left =
    if ltb (8 + 1073741823) left && ltb 1073741823 len
    then min (min len 4611686018427387903) (left - 8)
    else if ltb (4 + 16383) left && ltb 16383 len
    then min (min len 1073741823) (left - 4)
    else if ltb (2 + 63) left && ltb 63 len
    then min (min len 16383) (left - 2)
    else min (min len 63) (left - 1)

-- `none` stands for `(size_t)-1`.
unfoldable pub stream_max_datalen : ℕ → ℕ → ℕ → ℕ → Outcome (Option ℕ)
unfolding limit_datalen
stream_max_datalen stream_id offset len left = do
  n1 ← put_uvarintlen stream_id
  n2 ← if offset == 0 then ok 0 else put_uvarintlen offset
  let n = 1 + n1 + n2
  (if leb left n then ok none else ok (some (limit_datalen len (left - n))))

unfoldable pub crypto_max_datalen : ℕ → ℕ → ℕ → Outcome (Option ℕ)
unfolding limit_datalen
crypto_max_datalen offset len left = do
  n1 ← put_uvarintlen offset
  let n = 1 + n1
  (if leb left (n + 1) then ok none else ok (some (limit_datalen len (left - n))))

unfoldable pub datagram_framelen : ℕ → Outcome ℕ
datagram_framelen len = do n ← put_uvarintlen len; ok (1 + n + len)

encoding_len :
    (d : ℕ)
    → length (encoding d)
      ≡ (if ltb d 64 then 1 else if ltb d 16384 then 2 else if ltb d 1073741824 then 4 else 8)
unfolding encoding
encoding_len d = ground arith

limit-fits :
    (len left d : ℕ)
    → 1 ≤ left
    → d ≤ len
    → IsVarint d
    → d ≤ limit_datalen len left
    → length (encoding d) + d ≤ left
unfolding limit_datalen
limit-fits len left d h1 h2 h3 h = ground (arith, encoding_len d)

fits-limit :
    (len left d : ℕ)
    → 1 ≤ left
    → d ≤ len
    → IsVarint d
    → length (encoding d) + d ≤ left
    → d ≤ limit_datalen len left
unfolding limit_datalen
fits-limit len left d h1 h2 h3 h = ground (arith, encoding_len d)

-- A frame with `d` bytes of data is allowed.
abbrev pub Allows : Option ℕ → ℕ → Type 0
Allows none d = ⊥
Allows (some most) d = d ≤ most

size_of_stream :
    (fr : Stream)
    → length (wire (Frame.stream fr))
      ≡ 1
        + length (encoding fr.stream_id)
        + length (offset_wire fr)
        + (length (encoding (length (data_of fr))) + length (data_of fr))
unfolding wire stream_wire
size_of_stream fr =
    let bytes = data_of fr in
    omega (
      arith,
      length-append (encoding fr.stream_id) (offset_wire fr ++ (encoding (length bytes) ++ bytes)),
      length-append (offset_wire fr) (encoding (length bytes) ++ bytes),
      length-append (encoding (length bytes)) bytes,
    )

size_of_crypto :
    (fr : Stream)
    → length (wire (Frame.crypto fr))
      ≡ 1
        + length (encoding fr.offset)
        + (length (encoding (length (concat fr.payload))) + length (concat fr.payload))
unfolding wire
size_of_crypto fr =
    let bytes = concat fr.payload in
    omega (
      arith,
      length-append (encoding fr.offset) (encoding (length bytes) ++ bytes),
      length-append (encoding (length bytes)) bytes,
    )

offset_len :
    (offset : ℕ)
    → IsVarint offset
    → (n : ℕ) × ((if offset == 0 then ok 0 else put_uvarintlen offset) ≡ ok n)
      × ((fr : Stream) → fr.offset ≡ offset → length (offset_wire fr) ≡ n)
unfolding offset_wire
offset_len offset h = elim (Bool-cases (offset == 0)) [
  | inl none_sent ↦ (0, rw none_sent refl, λ fr e. ground (arith, e, none_sent))
  | inr sent ↦ (
    length (encoding offset),
    rw (sent, put_uvarintlen-encoding offset h) refl,
    λ fr e. ground (arith, e, sent),
  )
]

-- `ngtcp2_pkt_stream_max_datalen` is the exact limit: among the STREAM frames of this stream and offset
-- with at most `len` bytes of data, those that take no more than `left` bytes in a packet are those
-- with at most so many bytes of data. If it returns -1 there is no such frame.
pub stream_max_datalen-wire :
    (stream_id offset len left : ℕ)
    → IsVarint stream_id
    → IsVarint offset
    → (most : Option ℕ) × (stream_max_datalen stream_id offset len left ≡ ok most)
      × ((fr : Stream)
          → fr.stream_id ≡ stream_id
          → fr.offset ≡ offset
          → length (data_of fr) ≤ len
          → IsVarint (length (data_of fr))
          → (length (wire (Frame.stream fr)) ≤ left) ↔ Allows most (length (data_of fr)))
unfolding stream_max_datalen
stream_max_datalen-wire stream_id offset len left h1 h2 =
    let (n2, put_offset, offset_size) = offset_len offset h2 in
    let n1 = length (encoding stream_id) in
    let n = 1 + n1 + n2 in
    elim (Bool-cases (leb left n)) [
      | inl full ↦ (
        none,
        ground (arith, put_uvarintlen-encoding stream_id h1, put_offset, full),
        λ fr e1 e2 h3 h4. (
          λ fits. ground (
            arith,
            full,
            fits,
            size_of_stream fr,
            offset_size fr e2,
            e1,
            encoding_len (length (data_of fr)),
          ),
          λ no. absurd no,
        ),
      )
      | inr room ↦
          let some_left : 1 ≤ left - n = ground (arith, room) in
          (
            some (limit_datalen len (left - n)),
            ground (arith, put_uvarintlen-encoding stream_id h1, put_offset, room),
            λ fr e1 e2 h3 h4.
                let size = size_of_stream fr in
                let head : length (encoding fr.stream_id) ≡ n1 = ap (λ i. length (encoding i)) e1 in
                (
                  λ fits.
                      fits-limit len (left - n) (length (data_of fr)) some_left h3 h4
                        (omega (arith, fits, size, head, offset_size fr e2)),
                  λ small.
                      let room_for =
                        limit-fits len (left - n) (length (data_of fr)) some_left h3 h4 small in
                      omega (arith, room_for, size, head, offset_size fr e2, some_left),
                ),
          )
    ]

-- `ngtcp2_pkt_crypto_max_datalen` is the exact limit for CRYPTO frames that carry at least one byte.
pub crypto_max_datalen-wire :
    (offset len left : ℕ)
    → IsVarint offset
    → (most : Option ℕ) × (crypto_max_datalen offset len left ≡ ok most)
      × ((fr : Stream)
          → fr.offset ≡ offset
          → 1 ≤ length (concat fr.payload)
          → length (concat fr.payload) ≤ len
          → IsVarint (length (concat fr.payload))
          → (length (wire (Frame.crypto fr)) ≤ left) ↔ Allows most (length (concat fr.payload)))
unfolding crypto_max_datalen
crypto_max_datalen-wire offset len left h1 =
    let n1 = length (encoding offset) in
    let n = 1 + n1 in
    elim (Bool-cases (leb left (n + 1))) [
      | inl full ↦ (
        none,
        ground (arith, put_uvarintlen-encoding offset h1, full),
        λ fr e h2 h3 h4. (
          λ fits. ground (
            arith,
            full,
            fits,
            size_of_crypto fr,
            e,
            h2,
            encoding_len (length (concat fr.payload)),
          ),
          λ no. absurd no,
        ),
      )
      | inr room ↦
          let some_left : 1 ≤ left - n = ground (arith, room) in
          (
            some (limit_datalen len (left - n)),
            ground (arith, put_uvarintlen-encoding offset h1, room),
            λ fr e h2 h3 h4.
                let size = size_of_crypto fr in
                let head : length (encoding fr.offset) ≡ n1 = ap (λ i. length (encoding i)) e in
                (
                  λ fits.
                      fits-limit len (left - n) (length (concat fr.payload)) some_left h3 h4
                        (omega (arith, fits, size, head)),
                  λ small.
                      let room_for =
                        limit-fits len (left - n) (length (concat fr.payload)) some_left h3 h4
                          small in
                      omega (arith, room_for, size, head, some_left),
                ),
          )
    ]

-- `ngtcp2_pkt_datagram_framelen` is the length of the DATAGRAM frame that has a length field, for any
-- data whose length is a variable-length integer.
pub datagram_framelen-wire :
    (payload : List (List ℕ))
    → IsVarint (length (concat payload))
    → datagram_framelen (length (concat payload))
      ≡ ok (length (wire (Frame.datagram (record { type = 0x31; payload = payload }))))
unfolding datagram_framelen wire
datagram_framelen-wire payload h =
    let bytes = concat payload in
    ground (
      arith,
      put_uvarintlen-encoding (length bytes) h,
      length-append (encoding (length bytes)) bytes,
    )
