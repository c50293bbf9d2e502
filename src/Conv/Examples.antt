-- ===== src/Conv/Examples.antt =====
-- Runs of lib/ngtcp2_conv.c on the integers of RFC 9000, A.1 and A.2.
use zngtcp.Base.{ℕ, ◌≡◌, refl, List, [], ◌∷◌, ok, All}
use zngtcp.Conv.{IsByte, get_uvarint, put_uvarint}
use zngtcp.Conv.Bytes.{are_bytes, are_bytes_sound}
use zngtcp.Conv.Read.{read_varint, in_buffer, get_uvarint-read_varint}

-- 494878333, and two bytes more.
abbrev four_bytes : List ℕ
four_bytes = 0x9d ∷ 0x7f ∷ 0x3e ∷ 0x7d ∷ 0x01 ∷ 0x02 ∷ []

-- 37 in two bytes, of which one would do.
abbrev long_form : List ℕ
long_form = 0x40 ∷ 0x25 ∷ 0x07 ∷ []

four_bytes-IsByte : All IsByte four_bytes
unfolding are_bytes
four_bytes-IsByte = are_bytes_sound four_bytes refl

long_form-IsByte : All IsByte long_form
unfolding are_bytes
long_form-IsByte = are_bytes_sound long_form refl

get_uvarint-read_varint_example : get_uvarint four_bytes ≡ in_buffer (read_varint four_bytes)
get_uvarint-read_varint_example = get_uvarint-read_varint four_bytes four_bytes-IsByte

get_uvarint-long_form : get_uvarint long_form ≡ ok (37, 0x07 ∷ [])
unfolding get_uvarint
get_uvarint-long_form = refl

put_uvarint-37 : put_uvarint 37 ≡ ok (0x25 ∷ [])
unfolding put_uvarint
put_uvarint-37 = refl
