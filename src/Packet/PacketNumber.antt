-- ===== src/Packet/PacketNumber.antt =====
-- `ngtcp2_pkt_adjust_pkt_num` of lib/ngtcp2_pkt.c: the packet number that truncated digits stand for.
use zngtcp.Base.{
  ℕ, zero, suc, ◌+◌, ◌-◌, ◌*◌, ◌/◌, ◌%◌, ◌^◌, ◌≤◌, ◌<◌, ◌≡◌, Outcome, ok, ◌>>=◌, ◌>>◌, assert, ltb,
  leb, ◌&&◌, if◌then◌else◌, bit_or, bit_or-low, List, ◌++◌, arith,
}
use zngtcp.Conv.{put_pkt_num, get_pkt_num}
use zngtcp.Conv.Write.{get_pkt_num-put_pkt_num}

-- `max_pkt_num` is the 64 bits of an int64_t, so that -1, no packet yet, is 2 ^ 64 - 1. The mask
-- clears the low `pkt_numlen * 8` bits.
unfoldable pub adjust_pkt_num : ℕ → ℕ → ℕ → Outcome ℕ
adjust_pkt_num max_pkt_num pkt_num pkt_numlen =
    let expected = (max_pkt_num + 1) % 2 ^ 64 in
    let win = 2 ^ (pkt_numlen * 8) in
    let hwin = win / 2 in
    let cand = bit_or (expected / win * win) pkt_num in
    if leb (cand + hwin) expected
    then (do assert (leb cand (2 ^ 62 - 1 - win)); ok (cand + win))
    else ok (if ltb (expected + hwin) cand && leb win cand then cand - win else cand)

-- `n` is in the window around the expected number, RFC 9000, A.3.
abbrev pub InWindow : ℕ → ℕ → ℕ → Type 0
InWindow expected len n =
    (expected < n + 256 ^ len / 2) × (n ≤ expected + 256 ^ len / 2) × (n < 2 ^ 62)

adjust-digits :
    (max_pkt_num n len : ℕ)
    → 1 ≤ len
    → len ≤ 4
    → InWindow ((max_pkt_num + 1) % 2 ^ 64) len n
    → adjust_pkt_num max_pkt_num (n % 256 ^ len) len ≡ ok n
unfolding adjust_pkt_num
adjust-digits m n zero lo hi h = absurd (omega arith)
adjust-digits m n (suc zero) lo hi h =
    ground (arith, bit_or-low ((m + 1) % 2 ^ 64 / 2 ^ 8) 8 (n % 256) (omega arith))
adjust-digits m n (suc (suc zero)) lo hi h =
    ground (arith, bit_or-low ((m + 1) % 2 ^ 64 / 2 ^ 16) 16 (n % 256 ^ 2) (omega arith))
adjust-digits m n (suc (suc (suc zero))) lo hi h =
    ground (arith, bit_or-low ((m + 1) % 2 ^ 64 / 2 ^ 24) 24 (n % 256 ^ 3) (omega arith))
adjust-digits m n (suc (suc (suc (suc zero)))) lo hi h =
    ground (arith, bit_or-low ((m + 1) % 2 ^ 64 / 2 ^ 32) 32 (n % 256 ^ 4) (omega arith))
adjust-digits m n (suc (suc (suc (suc (suc k))))) lo hi h = absurd (omega arith)

-- A packet number that is written in 1 to 4 bytes, and that lies within half the range of so many
-- bytes of the one after the largest received, is recovered from these bytes; no `assert` fails.
pub adjust-put_pkt_num :
    (max_pkt_num n len : ℕ) (r : List ℕ) {bs : List ℕ}
    → 1 ≤ len
    → len ≤ 4
    → InWindow ((max_pkt_num + 1) % 2 ^ 64) len n
    → put_pkt_num n len ≡ ok bs
    → (do d ← get_pkt_num (bs ++ r) len; adjust_pkt_num max_pkt_num d len) ≡ ok n
adjust-put_pkt_num m n len r {bs} lo hi h e =
    let (bs', written, _, digits) = get_pkt_num-put_pkt_num n len r lo hi in
    let same : bs' ≡ bs = ground (arith, written, e) in
    let read : get_pkt_num (bs ++ r) len ≡ ok (n % 256 ^ len) = rw same at digits in
    rw (read, adjust-digits m n len lo hi h)
