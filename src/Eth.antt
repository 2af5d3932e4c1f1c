-- ===== src/Eth.antt =====
-- hw_test/eth_frames.py: Ethernet and ARP frames. A Python integer that the code only checks from
-- above is a natural number here, so the checks against 0 hold by themselves.
pub mod Laws
pub mod Boundary
pub mod Mac
use ws_pi.Base.{ℕ, ◌+◌, ◌-◌, ◌<◌, ◌≡◌, Option, none, some, List, [], ◌∷◌, ◌++◌, Bool, ◌&&◌, not}
use ws_pi.Base.{length, take, drop, slice, get_or, replicate, ltb, leb, ◌==◌, if◌then◌else◌}
use ws_pi.Base.{Result, ok, err, value_error, guard, ◌>>=◌, ◌>>◌}
use ws_pi.Base.Bytes.{Bytes, pack_u8, pack_be16, be16_at, IpAddr, inet_aton, inet_ntoa}

abbrev pub ethertype_ipv4 : ℕ
ethertype_ipv4 = 0x0800

abbrev pub ethertype_arp : ℕ
ethertype_arp = 0x0806

abbrev pub eth_header_len : ℕ
eth_header_len = 14

abbrev pub eth_min_payload : ℕ
eth_min_payload = 46

abbrev pub eth_min_frame : ℕ
eth_min_frame = 60

abbrev pub eth_max_frame : ℕ
eth_max_frame = 1514

abbrev pub broadcast_mac : Bytes
broadcast_mac = replicate 6 0xff

abbrev pub zero_mac : Bytes
zero_mac = replicate 6 0

abbrev arp_htype_eth : ℕ
arp_htype_eth = 1

abbrev arp_ptype_ipv4 : ℕ
arp_ptype_ipv4 = ethertype_ipv4

abbrev arp_hlen_eth : ℕ
arp_hlen_eth = 6

abbrev arp_plen_ipv4 : ℕ
arp_plen_ipv4 = 4

abbrev pub arp_op_request : ℕ
arp_op_request = 1

abbrev pub arp_op_reply : ℕ
arp_op_reply = 2

abbrev arp_packet_len : ℕ
arp_packet_len = 28

unfoldable pub build_eth_header : Bytes → Bytes → ℕ → Result Bytes
unfolding pack_be16
build_eth_header dst src ethertype = do
  guard (length dst == 6 && length src == 6) value_error
  guard (leb ethertype 0xffff) value_error
  t ← pack_be16 ethertype
  ok (dst ++ (src ++ t))

-- `frame + bytes(pad_to - len(frame))`, if the frame is shorter than `pad_to`.
abbrev pad_frame : Option ℕ → Bytes → Bytes
pad_frame none frame = frame
pad_frame (some pad_to) frame =
    if ltb (length frame) pad_to then frame ++ replicate (pad_to - length frame) 0 else frame

unfoldable pub build_eth_frame : Bytes → Bytes → ℕ → Bytes → Option ℕ → Result Bytes
unfolding build_eth_header
build_eth_frame dst src ethertype payload pad_to = do
  header ← build_eth_header dst src ethertype
  ok (pad_frame pad_to (header ++ payload))

pub record EthHeader : Type 0 where
  pub dst : Bytes
  pub src : Bytes
  pub ethertype : ℕ

unfoldable pub parse_eth_header : Bytes → Result EthHeader
parse_eth_header frame = do
  guard (not (ltb (length frame) eth_header_len)) value_error
  ok (record {
    dst = slice 0 6 frame;
    src = slice 6 12 frame;
    ethertype = be16_at (slice 12 14 frame);
  })

-- `_build_arp_payload`: the fields of `struct.pack("!HHBBH6s4s6s4s", …)` in order.
unfoldable pub build_arp_payload : ℕ → Bytes → IpAddr → Bytes → IpAddr → Result Bytes
unfolding pack_u8 pack_be16 inet_aton
build_arp_payload opcode sha spa tha tpa = do
  guard (length sha == 6 && length tha == 6) value_error
  spa' ← inet_aton spa
  tpa' ← inet_aton tpa
  htype ← pack_be16 arp_htype_eth
  ptype ← pack_be16 arp_ptype_ipv4
  hlen ← pack_u8 arp_hlen_eth
  plen ← pack_u8 arp_plen_ipv4
  op ← pack_be16 opcode
  ok (htype ++ (ptype ++ (hlen ++ (plen ++ (op ++ (sha ++ (spa' ++ (tha ++ tpa'))))))))

-- The default of `dst_mac` is `broadcast_mac`.
unfoldable pub build_arp_request : Bytes → IpAddr → IpAddr → Bytes → Result Bytes
unfolding build_arp_payload build_eth_frame
build_arp_request src_mac src_ip target_ip dst_mac = do
  arp ← build_arp_payload arp_op_request src_mac src_ip zero_mac target_ip
  build_eth_frame dst_mac src_mac ethertype_arp arp (some eth_min_frame)

unfoldable pub build_arp_reply : Bytes → IpAddr → Bytes → IpAddr → Result Bytes
unfolding build_arp_payload build_eth_frame
build_arp_reply src_mac src_ip target_mac target_ip = do
  arp ← build_arp_payload arp_op_reply src_mac src_ip target_mac target_ip
  build_eth_frame target_mac src_mac ethertype_arp arp (some eth_min_frame)

pub record Arp : Type 0 where
  pub eth_dst : Bytes
  pub eth_src : Bytes
  pub opcode : ℕ
  pub sha : Bytes
  pub spa : IpAddr
  pub tha : Bytes
  pub tpa : IpAddr

unfoldable pub parse_arp : Bytes → Result Arp
unfolding parse_eth_header
parse_arp frame = do
  eth ← parse_eth_header frame
  guard (eth.ethertype == ethertype_arp) value_error
  guard (not (ltb (length frame) (eth_header_len + arp_packet_len))) value_error
  let body = slice eth_header_len (eth_header_len + arp_packet_len) frame
  guard (be16_at (slice 0 2 body) == arp_htype_eth && be16_at (slice 2 4 body) == arp_ptype_ipv4)
      value_error
  guard (get_or body 4 0 == arp_hlen_eth && get_or body 5 0 == arp_plen_ipv4) value_error
  ok (record {
    eth_dst = eth.dst;
    eth_src = eth.src;
    opcode = be16_at (slice 6 8 body);
    sha = slice 8 14 body;
    spa = inet_ntoa (slice 14 18 body);
    tha = slice 18 24 body;
    tpa = inet_ntoa (slice 24 28 body);
  })

unfoldable pub build_runt : Bytes → Bytes → ℕ → ℕ → Result Bytes
unfolding build_eth_header
build_runt dst src len ethertype = do
  guard (not (ltb len eth_header_len)) value_error
  guard (ltb len eth_min_frame) value_error
  header ← build_eth_header dst src ethertype
  ok (header ++ replicate (len - eth_header_len) 0)

unfoldable pub build_oversize : Bytes → Bytes → ℕ → ℕ → Result Bytes
unfolding build_eth_header
build_oversize dst src len ethertype = do
  guard (not (leb len eth_max_frame)) value_error
  header ← build_eth_header dst src ethertype
  ok (header ++ replicate (len - eth_header_len) 0)

unfoldable pub build_bogus_ethertype : Bytes → Bytes → ℕ → ℕ → Result Bytes
unfolding build_eth_frame
build_bogus_ethertype dst src ethertype payload_len =
    build_eth_frame dst src ethertype (replicate payload_len 0) (some eth_min_frame)
