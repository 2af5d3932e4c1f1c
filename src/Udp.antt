-- ===== src/Udp.antt =====
-- hw_test/ip_frames.py: the UDP header, with its optional checksum over the IPv4 pseudo-header.
pub mod Checked
use ws_pi.Base.{ℕ, ◌+◌, Option, none, some, [], ◌∷◌, ◌++◌, length, leb, ◌==◌, if◌then◌else◌}
use ws_pi.Base.{Result, ok, err, value_error, guard, ◌>>=◌, ◌>>◌}
use ws_pi.Base.Bytes.{Bytes, pack_u8, pack_be16, IpAddr, inet_aton}
use ws_pi.Checksum.{ip_checksum}
use ws_pi.Ip.{ip_proto_udp}

abbrev pub udp_hdr_len : ℕ
udp_hdr_len = 8

-- `struct.pack("!HHHH", …)`
unfoldable pub pack_udp : ℕ → ℕ → ℕ → ℕ → Result Bytes
unfolding pack_be16
pack_udp src_port dst_port len cksum = do
  f0 ← pack_be16 src_port
  f1 ← pack_be16 dst_port
  f2 ← pack_be16 len
  f3 ← pack_be16 cksum
  ok (f0 ++ (f1 ++ (f2 ++ f3)))

-- The addresses of the pseudo-header, and the fields that `struct.pack("!BBH", …)` adds.
unfoldable pub pseudo_header : IpAddr → IpAddr → ℕ → Result Bytes
unfolding inet_aton pack_u8 pack_be16
pseudo_header src_ip dst_ip len = do
  src ← inet_aton src_ip
  dst ← inet_aton dst_ip
  f0 ← pack_u8 0
  f1 ← pack_u8 ip_proto_udp
  f2 ← pack_be16 len
  ok (src ++ (dst ++ (f0 ++ (f1 ++ f2))))

-- The real checksum, with 0xFFFF in place of 0, which means "not computed".
unfoldable pub computed_checksum : ℕ → ℕ → ℕ → Bytes → IpAddr → IpAddr → Result ℕ
unfolding pack_udp pseudo_header
computed_checksum src_port dst_port len payload src_ip dst_ip = do
  header ← pack_udp src_port dst_port len 0
  let udp_segment = header ++ payload
  pseudo ← pseudo_header src_ip dst_ip len
  let cksum = ip_checksum (pseudo ++ udp_segment)
  ok (if cksum == 0 then 0xffff else cksum)

-- `checksum` where it is given; else the computed one if both addresses are given; else 0.
abbrev pub udp_checksum :
    Option ℕ → Option IpAddr → Option IpAddr → (IpAddr → IpAddr → Result ℕ) → Result ℕ
udp_checksum (some given) src dst compute = do guard (leb given 0xffff) value_error; ok given
udp_checksum none (some src) (some dst) compute = compute src dst
udp_checksum none none dst compute = ok 0
udp_checksum none (some src) none compute = ok 0

unfoldable pub build_udp_header :
    ℕ → ℕ → Bytes → Option ℕ → Option IpAddr → Option IpAddr → Result Bytes
unfolding pack_udp computed_checksum
build_udp_header src_port dst_port payload checksum pseudo_src_ip pseudo_dst_ip = do
  guard (leb src_port 0xffff) value_error
  guard (leb dst_port 0xffff) value_error
  let len = udp_hdr_len + length payload
  guard (leb len 0xffff) value_error
  cksum ←
      udp_checksum checksum pseudo_src_ip pseudo_dst_ip
        (computed_checksum src_port dst_port len payload)
  header ← pack_udp src_port dst_port len cksum
  ok (header ++ payload)
