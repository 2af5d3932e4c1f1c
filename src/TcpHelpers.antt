-- ===== src/TcpHelpers.antt =====
-- hw_test/tcp_helpers.py: TCP segments with their options, and the frames that carry them. A Python
-- integer is a natural number here: the code only checks it from above, by `struct.pack`.
pub mod Options
pub mod Padding
pub mod Parse
pub mod Packet
pub mod Fields
pub mod Received
pub mod Session
pub mod Waiting
pub mod Accounting
pub mod Exchange
use ws_pi.Base.{ℕ, ◌+◌, ◌*◌, ◌/◌, ◌%◌, ◌^◌, [], ◌∷◌, ◌++◌, Bool}
use ws_pi.Base.{length, take, drop, ◌==◌, Result, ok, err, assertion_error, guard, ◌>>=◌, ◌>>◌}
use ws_pi.Base.Bytes.{Bytes, pack_u8, pack_be16, pack_be32, IpAddr, inet_aton}
use ws_pi.Checksum.{ip_checksum}
use ws_pi.Eth.{build_eth_header, ethertype_ipv4}
use ws_pi.Ip.{pack_header, splice_checksum}
use ws_pi.Frames.{Route}

-- `src + dst + struct.pack('!BBH', 0, 6, len(tcp_segment))`
unfoldable pub pseudo_bytes : IpAddr → IpAddr → ℕ → Result Bytes
unfolding inet_aton pack_u8 pack_be16
pseudo_bytes src_ip dst_ip len = do
  src ← inet_aton src_ip
  dst ← inet_aton dst_ip
  f0 ← pack_u8 0
  f1 ← pack_u8 6
  f2 ← pack_be16 len
  ok (src ++ (dst ++ (f0 ++ (f1 ++ f2))))

unfoldable pub tcp_checksum : IpAddr → IpAddr → Bytes → Result ℕ
unfolding pseudo_bytes
tcp_checksum src_ip dst_ip tcp_segment = do
  pseudo ← pseudo_bytes src_ip dst_ip (length tcp_segment)
  ok (ip_checksum (pseudo ++ tcp_segment))

unfoldable pub build_ip_header : IpAddr → IpAddr → ℕ → ℕ → ℕ → Result Bytes
unfolding pack_header splice_checksum
build_ip_header src_ip dst_ip payload_len proto ttl = do
  hdr ← pack_header 0x45 0 (20 + payload_len) 0x1234 0x4000 ttl proto src_ip dst_ip
  ok (splice_checksum hdr (ip_checksum hdr))

-- The arguments of a segment.
pub record Segment : Type 0 where
  pub src_port : ℕ
  pub dst_port : ℕ
  pub seq : ℕ
  pub ack : ℕ
  pub flags : ℕ
  pub window : ℕ
  pub payload : Bytes
  pub options : Bytes

-- The nine fields of `struct.pack('!HHIIBBHHH', …)` in order.
unfoldable pub pack_tcp : Segment → ℕ → Result Bytes
unfolding pack_u8 pack_be16 pack_be32
pack_tcp s data_offset = do
  f0 ← pack_be16 s.src_port
  f1 ← pack_be16 s.dst_port
  f2 ← pack_be32 s.seq
  f3 ← pack_be32 s.ack
  f4 ← pack_u8 data_offset
  f5 ← pack_u8 s.flags
  f6 ← pack_be16 s.window
  f7 ← pack_be16 0
  f8 ← pack_be16 0
  ok (f0 ++ (f1 ++ (f2 ++ (f3 ++ (f4 ++ (f5 ++ (f6 ++ (f7 ++ f8))))))))

unfoldable pub build_tcp_segment : Segment → Result Bytes
unfolding pack_tcp
build_tcp_segment s = do
  let header_len = 20 + length s.options
  guard (header_len % 4 == 0) assertion_error
  hdr ← pack_tcp s (header_len / 4 * 2 ^ 4)
  ok (hdr ++ (s.options ++ s.payload))

-- The defaults of `build_ip_header` are the protocol 6 and the TTL 64.
unfoldable pub build_tcp_packet : IpAddr → IpAddr → Segment → Result Bytes
unfolding build_tcp_segment tcp_checksum build_ip_header pack_be16
build_tcp_packet src_ip dst_ip s = do
  segment ← build_tcp_segment s
  cksum ← tcp_checksum src_ip dst_ip segment
  c ← pack_be16 cksum
  let summed = take 16 segment ++ (c ++ drop 18 segment)
  ip_hdr ← build_ip_header src_ip dst_ip (length summed) 6 64
  ok (ip_hdr ++ summed)

unfoldable pub build_tcp_frame : Route → Segment → Result Bytes
unfolding build_tcp_packet build_eth_header
build_tcp_frame r s = do
  ip_tcp ← build_tcp_packet r.src_ip r.dst_ip s
  eth_hdr ← build_eth_header r.dst_mac r.src_mac ethertype_ipv4
  ok (eth_hdr ++ ip_tcp)
