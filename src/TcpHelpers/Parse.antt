-- ===== src/TcpHelpers/Parse.antt =====
-- hw_test/tcp_helpers.py: reading the TCP and IPv4 headers of a received frame.
use ws_pi.Base.{ℕ, ◌+◌, ◌*◌, ◌/◌, ◌^◌, Option, none, some, [], ◌∷◌, Bool, true, false}
use ws_pi.Base.{◌&&◌, bit_and, length, drop, slice, get_or, ltb, leb, ◌==◌, if◌then◌else◌}
use ws_pi.Base.{Result, ok, err, type_error, ◌>>=◌}
use ws_pi.Base.Bytes.{Bytes, be16_at, IpAddr, inet_ntoa}
use ws_pi.Eth.{parse_eth_header, ethertype_ipv4}
use ws_pi.Frames.{Route}

abbrev pub be32_at : Bytes → ℕ
be32_at (a ∷ b ∷ c ∷ d ∷ r) = a * 2 ^ 24 + b * 2 ^ 16 + c * 256 + d
be32_at _ = 0

pub record TcpHeader : Type 0 where
  pub src_port : ℕ
  pub dst_port : ℕ
  pub seq : ℕ
  pub ack : ℕ
  pub data_offset : ℕ
  pub flags : ℕ
  pub window : ℕ
  pub checksum : ℕ
  pub urgent : ℕ
  pub options : Bytes

unfoldable pub parse_tcp_header : Bytes → ℕ → Option TcpHeader
parse_tcp_header bytes offset =
    let fields = drop offset bytes in
    let data_offset = get_or fields 12 0 / 2 ^ 4 * 4 in
    if ltb (length bytes) (offset + 20)
    then none
    else some (record {
      src_port = be16_at (slice 0 2 fields);
      dst_port = be16_at (slice 2 4 fields);
      seq = be32_at (slice 4 8 fields);
      ack = be32_at (slice 8 12 fields);
      data_offset = data_offset;
      flags = get_or fields 13 0;
      window = be16_at (slice 14 16 fields);
      checksum = be16_at (slice 16 18 fields);
      urgent = be16_at (slice 18 20 fields);
      options = if ltb 20 data_offset then slice (offset + 20) (offset + data_offset) bytes else [];
    })

pub record IpHeader : Type 0 where
  pub version : ℕ
  pub ihl : ℕ
  pub total_len : ℕ
  pub ttl : ℕ
  pub proto : ℕ
  pub src : IpAddr
  pub dst : IpAddr

unfoldable pub parse_ip_header : Bytes → Option IpHeader
parse_ip_header bytes =
    if ltb (length bytes) 20
    then none
    else some (record {
      version = get_or bytes 0 0 / 2 ^ 4;
      ihl = bit_and (get_or bytes 0 0) 0x0f * 4;
      total_len = be16_at (slice 2 4 bytes);
      ttl = get_or bytes 8 0;
      proto = get_or bytes 9 0;
      src = inet_ntoa (slice 12 16 bytes);
      dst = inet_ntoa (slice 16 20 bytes);
    })

abbrev pub tcp_at : ℕ
tcp_at = 14 + 20

-- `==` on byte strings and on addresses.
abbrev pub same_bytes : Bytes → Bytes → Bool
same_bytes [] [] = true
same_bytes (x ∷ xs) (y ∷ ys) = (x == y) && same_bytes xs ys
same_bytes _ _ = false

abbrev pub same_ip : IpAddr → IpAddr → Bool
same_ip p q = (p.a == q.a) && (p.b == q.b) && (p.c == q.c) && (p.d == q.d)

-- The checks on the ports.
unfoldable pub is_for_ports : ℕ → ℕ → Option TcpHeader → Bool
is_for_ports src_port dst_port none = false
is_for_ports src_port dst_port (some tcp) = (tcp.src_port == src_port) && (tcp.dst_port == dst_port)

-- The checks on the IPv4 header.
unfoldable pub is_tcp_between : Route → Option IpHeader → Bool
is_tcp_between r none = false
is_tcp_between r (some ip) = (ip.proto == 6) && same_ip ip.src r.src_ip && same_ip ip.dst r.dst_ip

unfoldable pub is_tcp_from : Bytes → Route → ℕ → ℕ → Result Bool
is_tcp_from frame r src_port dst_port = if ltb (length frame) (14 + 20 + 20) then ok false else do
  eth ← parse_eth_header frame
  ok (
      same_bytes eth.src r.src_mac
      && same_bytes eth.dst r.dst_mac
      && (eth.ethertype == ethertype_ipv4)
      && is_tcp_between r (parse_ip_header (slice 14 (14 + 20) frame))
      && is_for_ports src_port dst_port (parse_tcp_header frame tcp_at))

-- The payload, by the total length of the IPv4 header and the data offset of the TCP header. Indexing
-- the `None` of a frame without a TCP header is a `TypeError`.
unfoldable pub payload_of : Bytes → Option IpHeader → Option TcpHeader → Result Bytes
payload_of frame none tcp = ok []
payload_of frame (some ip) none = err type_error
payload_of frame (some ip) (some tcp) =
    let payload_start = tcp_at + tcp.data_offset in
    let payload_end = 14 + ip.total_len in
    ok (if leb payload_end payload_start then [] else slice payload_start payload_end frame)

unfoldable pub tcp_payload : Bytes → Result Bytes
tcp_payload frame =
    payload_of frame (parse_ip_header (drop 14 frame)) (parse_tcp_header frame tcp_at)
