-- ===== src/Ip.antt =====
-- hw_test/ip_frames.py: the IPv4 header, and the frames that carry one. A Python integer that the
-- code only checks from above is a natural number here, so the checks against 0 hold by themselves.
pub mod Header
pub mod RoundTrip
pub mod Outcome
use ws_pi.Base.{
  ℕ, ◌+◌, ◌-◌, ◌*◌, ◌/◌, ◌%◌, ◌^◌, ◌≡◌, Option, none, some, [], ◌∷◌, ◌++◌, Bool, ◌&&◌, not,
}
use ws_pi.Base.{bit_and, bit_or, length, take, drop, slice, get_or, replicate, ltb, leb, ◌==◌}
use ws_pi.Base.{if◌then◌else◌, Result, ok, err, value_error, guard, ◌>>=◌, ◌>>◌}
use ws_pi.Base.Bytes.{Bytes, pack_u8, pack_be16, be16, be16_at, IpAddr, inet_aton, inet_ntoa}
use ws_pi.Checksum.{ip_checksum}
use ws_pi.Eth.{build_eth_header, ethertype_ipv4}

abbrev pub ip_version_4 : ℕ
ip_version_4 = 4

abbrev pub ip_hdr_min : ℕ
ip_hdr_min = 20

abbrev pub ip_default_ttl : ℕ
ip_default_ttl = 64

abbrev pub ip_proto_icmp : ℕ
ip_proto_icmp = 1

abbrev pub ip_proto_udp : ℕ
ip_proto_udp = 17

abbrev pub ip_flag_df : ℕ
ip_flag_df = 0x4000

abbrev pub ip_flag_mf : ℕ
ip_flag_mf = 0x2000

abbrev pub ip_frag_offset_mask : ℕ
ip_frag_offset_mask = 0x1fff

-- The arguments of `build_ipv4_header`.
pub record HeaderArgs : Type 0 where
  pub src_ip : IpAddr
  pub dst_ip : IpAddr
  pub protocol : ℕ
  pub payload_len : ℕ
  pub ttl : ℕ
  pub ident : ℕ
  pub flags : ℕ
  pub frag_off : ℕ
  pub tos : ℕ
  pub version : ℕ
  pub ihl : ℕ
  pub checksum : Option ℕ

-- The arguments that have no default; the others have theirs.
abbrev pub header_args : IpAddr → IpAddr → ℕ → ℕ → HeaderArgs
header_args src_ip dst_ip protocol payload_len = record {
  src_ip = src_ip;
  dst_ip = dst_ip;
  protocol = protocol;
  payload_len = payload_len;
  ttl = ip_default_ttl;
  ident = 0;
  flags = 0;
  frag_off = 0;
  tos = 0;
  version = ip_version_4;
  ihl = 5;
  checksum = none;
}

-- The ten fields of `struct.pack("!BBHHHBBH4s4s", …)` in order, with 0 for the checksum.
unfoldable pub pack_header : ℕ → ℕ → ℕ → ℕ → ℕ → ℕ → ℕ → IpAddr → IpAddr → Result Bytes
unfolding pack_u8 pack_be16 inet_aton
pack_header ver_ihl tos total_length ident frag_word ttl protocol src_ip dst_ip = do
  src ← inet_aton src_ip
  dst ← inet_aton dst_ip
  f0 ← pack_u8 ver_ihl
  f1 ← pack_u8 tos
  f2 ← pack_be16 total_length
  f3 ← pack_be16 ident
  f4 ← pack_be16 frag_word
  f5 ← pack_u8 ttl
  f6 ← pack_u8 protocol
  f7 ← pack_be16 0
  ok (f0 ++ (f1 ++ (f2 ++ (f3 ++ (f4 ++ (f5 ++ (f6 ++ (f7 ++ (src ++ dst)))))))))

-- `header[:10] + struct.pack("!H", cksum) + header[12:]`
unfoldable pub splice_checksum : Bytes → ℕ → Bytes
splice_checksum header cksum = take 10 header ++ (be16 cksum ++ drop 12 header)

-- The checksum that the caller gives, if it is a 16-bit number, or the computed one.
abbrev pub chosen_checksum : Option ℕ → ℕ → Result ℕ
chosen_checksum none computed = ok computed
chosen_checksum (some given) computed = do guard (leb given 0xffff) value_error; ok given

abbrev pub check_fields : HeaderArgs → Result (Unit {0})
check_fields x = do
  guard (leb x.version 0xf) value_error
  guard (leb x.ihl 0xf) value_error
  guard (leb x.tos 0xff) value_error
  guard (leb x.ttl 0xff) value_error
  guard (leb x.protocol 0xff) value_error
  guard (leb x.ident 0xffff) value_error
  guard (not (ltb (0xffff - ip_hdr_min) x.payload_len)) value_error
  guard (not (ltb (ip_frag_offset_mask * 8) x.frag_off)) value_error
  guard (bit_and x.frag_off 0x7 == 0) value_error
  guard (bit_and x.flags ip_frag_offset_mask == 0) value_error

unfoldable pub build_ipv4_header : HeaderArgs → Result Bytes
unfolding splice_checksum
build_ipv4_header x = do
  check_fields x
  header ←
      pack_header (bit_or (x.version * 2 ^ 4) x.ihl) x.tos (x.payload_len + ip_hdr_min) x.ident
        (bit_or x.flags (x.frag_off / 2 ^ 3)) x.ttl x.protocol x.src_ip x.dst_ip
  cksum ← chosen_checksum x.checksum (ip_checksum header)
  ok (splice_checksum header cksum)

pub record Ipv4Header : Type 0 where
  pub version : ℕ
  pub ihl : ℕ
  pub tos : ℕ
  pub total_length : ℕ
  pub ident : ℕ
  pub flags : ℕ
  pub frag_off : ℕ
  pub ttl : ℕ
  pub protocol : ℕ
  pub checksum : ℕ
  pub src_ip : IpAddr
  pub dst_ip : IpAddr

-- `frag_word & ~IP_FRAG_OFFSET_MASK` clears the mask's bits, which leaves the difference.
unfoldable pub parse_ipv4_header : Bytes → Result Ipv4Header
parse_ipv4_header bytes = do
  guard (not (ltb (length bytes) ip_hdr_min)) value_error
  let ver_ihl = get_or bytes 0 0
  let frag_word = be16_at (slice 6 8 bytes)
  ok (record {
    version = ver_ihl / 2 ^ 4;
    ihl = bit_and ver_ihl 0xf;
    tos = get_or bytes 1 0;
    total_length = be16_at (slice 2 4 bytes);
    ident = be16_at (slice 4 6 bytes);
    flags = frag_word - bit_and frag_word ip_frag_offset_mask;
    frag_off = bit_and frag_word ip_frag_offset_mask * 8;
    ttl = get_or bytes 8 0;
    protocol = get_or bytes 9 0;
    checksum = be16_at (slice 10 12 bytes);
    src_ip = inet_ntoa (slice 12 16 bytes);
    dst_ip = inet_ntoa (slice 16 20 bytes);
  })
