-- ===== src/Params/RoundTrip/Blocks.antt =====
-- The preferred address and the version information, as `ngtcp2_transport_params_encode_versioned`
-- of lib/ngtcp2_transport_params.c writes them.
use zngtcp.Base.{
  ℕ, zero, suc, replicate, ◌+◌, ◌%◌, ◌≡◌, refl, List, [], ◌∷◌, ◌++◌, Bool, true, false, length, All,
  length-append, length-replicate, arith,
}
use zngtcp.Conv.{IsByte, put_uint32be}
use zngtcp.Conv.Write.{All-append}
use zngtcp.Params.{PreferredAddr, VersionInfo}
use zngtcp.Params.Encode.{
  preferred_addrlen, write_addr, preferred_addr_bytes, preferred_addr_paramlen, version_infolen,
  version_info_bytes, value_paramlen, write_value,
}
use zngtcp.Params.RoundTrip.{IsAddressSent, IsPreferredSent, IsVersionSent}
use zngtcp.Params.RoundTrip.Parts.{IsPart}
use zngtcp.Params.RoundTrip.Written.{IsWritten, value_IsWritten}

-- An address takes its size and two bytes, whether it is there or not.
pub length-write_addr :
    (n : ℕ) (present : Bool) (addr port : List ℕ)
    → IsAddressSent n present addr port
    → length (write_addr present n addr port) ≡ n + 2
unfolding write_addr
length-write_addr n true addr port h =
    omega (arith, length-append addr port, h.addr_size refl, h.port_size refl)
length-write_addr n false addr port h =
    omega (arith, length-append {A = ℕ} (replicate n 0) (0 ∷ 0 ∷ []), length-replicate {A = ℕ} n 0)

pub zeros_IsByte : (n : ℕ) → All IsByte (replicate n 0)
zeros_IsByte zero = tt
zeros_IsByte (suc n) = (omega arith, zeros_IsByte n)

pub write_addr-IsByte :
    (n : ℕ) (present : Bool) (addr port : List ℕ)
    → IsAddressSent n present addr port
    → All IsByte (write_addr present n addr port)
unfolding write_addr
write_addr-IsByte n true addr port h = All-append addr port (h.addr_bytes refl) (h.port_bytes refl)
write_addr-IsByte n false addr port h =
    All-append (replicate n 0) (0 ∷ 0 ∷ []) (zeros_IsByte n) (omega arith, (omega arith, tt))

pub length-preferred_addr_bytes :
    (a : PreferredAddr) → IsPreferredSent a → preferred_addrlen a ≡ length (preferred_addr_bytes a)
unfolding preferred_addrlen preferred_addr_bytes
length-preferred_addr_bytes a h =
    let v4 = write_addr a.ipv4_present 4 a.ipv4_addr a.ipv4_port in
    let v6 = write_addr a.ipv6_present 16 a.ipv6_addr a.ipv6_port in
    let tail = (length a.cid % 256) ∷ (a.cid ++ a.reset_token) in
    omega (
      arith,
      length-append v4 (v6 ++ tail),
      length-append v6 tail,
      length-append a.cid a.reset_token,
      length-write_addr 4 a.ipv4_present a.ipv4_addr a.ipv4_port h.ipv4,
      length-write_addr 16 a.ipv6_present a.ipv6_addr a.ipv6_port h.ipv6,
      h.token.size,
    )

pub preferred_IsPart :
    (a : PreferredAddr) → IsPreferredSent a → IsPart 0x0D (preferred_addr_bytes a)
preferred_IsPart a h = record {
  id_max = omega arith;
  size = unfold preferred_addrlen in omega (arith, length-preferred_addr_bytes a h, h.cid.size);
  bytes =
      unfold preferred_addr_bytes in
      All-append (write_addr a.ipv4_present 4 a.ipv4_addr a.ipv4_port) _
        (write_addr-IsByte 4 a.ipv4_present a.ipv4_addr a.ipv4_port h.ipv4)
        (All-append (write_addr a.ipv6_present 16 a.ipv6_addr a.ipv6_port) _
          (write_addr-IsByte 16 a.ipv6_present a.ipv6_addr a.ipv6_port h.ipv6)
          (omega arith, All-append a.cid a.reset_token h.cid.bytes h.token.bytes));
}

pub preferred_IsWritten :
    (a : PreferredAddr)
    → IsPreferredSent a
    → IsWritten
        (preferred_addr_paramlen a)
        (write_value 0x0D (preferred_addrlen a) (preferred_addr_bytes a))
        0x0D
        (preferred_addr_bytes a)
preferred_IsWritten a h =
    let whole =
      value_IsWritten 0x0D (preferred_addrlen a) (preferred_addr_bytes a) (omega arith)
        (length-preferred_addr_bytes a h) (preferred_IsPart a h).size in
    record {
      len = unfold preferred_addr_paramlen in ground (arith, whole.len, h.cid.size, h.cid_pos);
      bytes = whole.bytes;
    }

pub version_IsPart : (v : VersionInfo) → IsVersionSent v → IsPart 0x11 (version_info_bytes v)
unfolding version_info_bytes put_uint32be
version_IsPart v h = record {
  id_max = omega arith;
  size = omega (arith, h.size);
  bytes = (omega arith, (omega arith, (omega arith, (omega arith, h.bytes))));
}

pub version_IsWritten :
    (v : VersionInfo)
    → IsVersionSent v
    → IsWritten
        (value_paramlen 0x11 (version_infolen v))
        (write_value 0x11 (version_infolen v) (version_info_bytes v))
        0x11
        (version_info_bytes v)
version_IsWritten v h =
    value_IsWritten 0x11 (version_infolen v) (version_info_bytes v) (omega arith)
      (unfold version_infolen version_info_bytes put_uint32be in omega arith)
      (version_IsPart v h).size
