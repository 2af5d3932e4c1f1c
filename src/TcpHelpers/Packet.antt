-- ===== src/TcpHelpers/Packet.antt =====
-- The bytes of a segment that `build_tcp_segment` makes, and of the packet around it.
use ws_pi.Base.{ℕ, ◌+◌, ◌-◌, ◌*◌, ◌/◌, ◌%◌, ◌^◌, ◌≤◌, ◌<◌, ◌≡◌, refl, arith}
use ws_pi.Base.{none, ◌∷◌, ◌++◌, length, length-append, ok}
use ws_pi.Base.Bytes.{Bytes, be16, be32, octets, IpAddr, IsIpAddr, inet_aton-eq_ok, pack_be16-eq_ok}
use ws_pi.Checksum.{ip_checksum}
use ws_pi.Checksum.Verify.{ip_checksum-lt, ip_checksum-splice}
use ws_pi.Ip.{HeaderArgs, splice_checksum}
use ws_pi.Ip.Header.{IsValidArgs, built_header, pack_header-eq_ok}
use ws_pi.TcpHelpers.{
  Segment, pseudo_bytes, tcp_checksum, build_ip_header, pack_tcp, build_tcp_segment,
  build_tcp_packet,
}

-- What the fields of a segment must satisfy.
pub record IsSegment (s : Segment) : Type 0 where
  pub src_port_fits : s.src_port ≤ 0xffff
  pub dst_port_fits : s.dst_port ≤ 0xffff
  pub seq_fits : s.seq < 2 ^ 32
  pub ack_fits : s.ack < 2 ^ 32
  pub flags_fit : s.flags ≤ 0xff
  pub window_fits : s.window ≤ 0xffff
  pub options_aligned : length s.options % 4 ≡ 0
  pub options_fit : length s.options ≤ 40
  pub packet_fits : 40 + length s.options + length s.payload ≤ 0xffff

abbrev pub header_len : Segment → ℕ
header_len s = 20 + length s.options

-- The header in front of the checksum.
abbrev pub before_sum : Segment → Bytes
before_sum s =
    be16 s.src_port
    ++ (be16 s.dst_port
        ++ (be32 s.seq ++ (be32 s.ack ++ ((header_len s / 4 * 2 ^ 4) ∷ s.flags ∷ be16 s.window))))

-- What follows the checksum.
abbrev pub after_sum : Segment → Bytes
after_sum s = be16 0 ++ (s.options ++ s.payload)

abbrev pub tcp_bytes : Segment → ℕ → Bytes
tcp_bytes s c = before_sum s ++ (be16 c ++ after_sum s)

abbrev pub tcp_len : Segment → ℕ
tcp_len s = 20 + length s.options + length s.payload

pub length-tcp_bytes : (s : Segment) (c : ℕ) → length (tcp_bytes s c) ≡ tcp_len s
length-tcp_bytes s c = omega (arith, length-append s.options s.payload)

abbrev pub pseudo : IpAddr → IpAddr → ℕ → Bytes
pseudo src dst len = octets src ++ (octets dst ++ (0 ∷ 6 ∷ be16 len))

-- The arguments of the IPv4 header around `len` bytes.
abbrev pub ip_args : IpAddr → IpAddr → ℕ → HeaderArgs
ip_args src dst len = record {
  src_ip = src;
  dst_ip = dst;
  protocol = 6;
  payload_len = len;
  ttl = 64;
  ident = 0x1234;
  flags = 0x4000;
  frag_off = 0;
  tos = 0;
  version = 4;
  ihl = 5;
  checksum = none;
}

pub ip_args-IsValidArgs :
    (src dst : IpAddr) (len : ℕ)
    → IsIpAddr src
    → IsIpAddr dst
    → len ≤ 0xffff - 20
    → IsValidArgs (ip_args src dst len)
ip_args-IsValidArgs src dst len hs hd h = record {
  version_fits = omega arith;
  ihl_fits = omega arith;
  tos_fits = omega arith;
  ttl_fits = omega arith;
  protocol_fits = omega arith;
  ident_fits = omega arith;
  payload_len_fits = h;
  frag_off_fits = omega arith;
  frag_off_aligned = refl;
  flags_fit = omega arith;
  flags_high = refl;
  src_valid = hs;
  dst_valid = hd;
}

pub build_ip_header-eq_ok :
    (src dst : IpAddr) (len : ℕ)
    → IsIpAddr src
    → IsIpAddr dst
    → len ≤ 0xffff - 20
    → build_ip_header src dst len 6 64 ≡ ok (built_header (ip_args src dst len))
unfolding build_ip_header splice_checksum
build_ip_header-eq_ok src dst len hs hd h =
    let x = ip_args src dst len in
    let total : 20 + len ≡ len + 20 = omega arith in
    let packed = pack_header-eq_ok x (ip_args-IsValidArgs src dst len hs hd h) in rw (total, packed)

pub pseudo_bytes-eq_ok :
    (src dst : IpAddr) (len : ℕ)
    → IsIpAddr src
    → IsIpAddr dst
    → len ≤ 0xffff
    → pseudo_bytes src dst len ≡ ok (pseudo src dst len)
unfolding pseudo_bytes
pseudo_bytes-eq_ok src dst len hs hd h =
    rw (inet_aton-eq_ok src hs, inet_aton-eq_ok dst hd) (ground arith)

module _ (s : Segment) (v : IsSegment s) where
  pub pack_tcp-eq_ok :
      pack_tcp s (header_len s / 4 * 2 ^ 4) ≡ ok (before_sum s ++ (be16 0 ++ be16 0))
  unfolding pack_tcp
  pack_tcp-eq_ok = let small : header_len s / 4 * 2 ^ 4 ≤ 0xff = omega arith in ground arith

  pub build_tcp_segment-eq_ok : build_tcp_segment s ≡ ok (tcp_bytes s 0)
  unfolding build_tcp_segment
  build_tcp_segment-eq_ok =
      let aligned : header_len s % 4 ≡ 0 = omega arith in rw (aligned, pack_tcp-eq_ok)

  abbrev pub tcp_sum : IpAddr → IpAddr → ℕ
  tcp_sum src dst = ip_checksum (pseudo src dst (tcp_len s) ++ tcp_bytes s 0)

  pub tcp_sum-le : (src dst : IpAddr) → tcp_sum src dst ≤ 0xffff
  tcp_sum-le src dst = omega (arith, ip_checksum-lt (pseudo src dst (tcp_len s) ++ tcp_bytes s 0))

  pub build_tcp_packet-eq_ok :
      (src dst : IpAddr)
      → IsIpAddr src
      → IsIpAddr dst
      → build_tcp_packet src dst s
        ≡ ok (built_header (ip_args src dst (tcp_len s)) ++ tcp_bytes s (tcp_sum src dst))
  unfolding build_tcp_packet tcp_checksum
  build_tcp_packet-eq_ok src dst hs hd = rw (
    build_tcp_segment-eq_ok,
    length-tcp_bytes s 0,
    pseudo_bytes-eq_ok src dst (tcp_len s) hs hd (omega arith),
    pack_be16-eq_ok (tcp_sum src dst) (tcp_sum-le src dst),
    length-tcp_bytes s (tcp_sum src dst),
    build_ip_header-eq_ok src dst (tcp_len s) hs hd (omega arith),
  )

  pub tcp_sum-verifies :
      (src dst : IpAddr)
      → ip_checksum (pseudo src dst (tcp_len s) ++ tcp_bytes s (tcp_sum src dst)) ≡ 0
  tcp_sum-verifies src dst =
      ip_checksum-splice (pseudo src dst (tcp_len s) ++ before_sum s) (after_sum s) refl
