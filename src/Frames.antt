-- ===== src/Frames.antt =====
-- hw_test/ip_frames.py: whole Ethernet frames with an IPv4 header and what it carries.
pub mod Layers
pub mod Echo
use ws_pi.Base.{ℕ, ◌+◌, ◌-◌, ◌*◌, ◌/◌, ◌^◌, Option, none, some, [], ◌∷◌, ◌++◌, Bool, ◌&&◌, ◌||◌}
use ws_pi.Base.{bit_and, bit_or, length, take, drop, replicate, ltb, leb, ◌==◌, if◌then◌else◌}
use ws_pi.Base.{Result, ok, err, value_error, guard, ◌>>=◌, ◌>>◌}
use ws_pi.Base.Bytes.{Bytes, IpAddr}
use ws_pi.Checksum.{ip_checksum}
use ws_pi.Eth.{build_eth_header, ethertype_ipv4, eth_header_len}
use ws_pi.Ip.{header_args, build_ipv4_header, pack_header, splice_checksum, ip_hdr_min}
use ws_pi.Ip.{ip_proto_icmp, ip_proto_udp, ip_flag_df, ip_frag_offset_mask}
use ws_pi.Icmp.{build_icmp_echo_request}
use ws_pi.Udp.{build_udp_header}

-- The addresses that every frame builder takes first.
pub record Route : Type 0 where
  pub src_mac : Bytes
  pub dst_mac : Bytes
  pub src_ip : IpAddr
  pub dst_ip : IpAddr

-- `build_eth_header(dst_mac, src_mac, ETHERTYPE_IPV4) + ip + body`
unfoldable pub wrap : Route → Bytes → Bytes → Result Bytes
wrap r ip body = do
  eth ← build_eth_header r.dst_mac r.src_mac ethertype_ipv4
  ok (eth ++ (ip ++ body))

unfoldable pub build_icmp_echo_frame :
    Route → ℕ → ℕ → Bytes → ℕ → ℕ → Bool → Bool → Bool → Result Bytes
unfolding wrap
build_icmp_echo_frame r ident seq payload ttl ip_ident df bad_ip_checksum bad_icmp_checksum = do
  icmp ← build_icmp_echo_request ident seq payload bad_icmp_checksum
  let args = header_args r.src_ip r.dst_ip ip_proto_icmp (length icmp)
  ip ← build_ipv4_header (record args {
    ttl = ttl;
    ident = ip_ident;
    flags = if df then ip_flag_df else 0;
    checksum = if bad_ip_checksum then some 0x1234 else none;
  })
  wrap r ip icmp

unfoldable pub build_udp_frame : Route → ℕ → ℕ → Bytes → ℕ → ℕ → Option ℕ → Result Bytes
unfolding wrap
build_udp_frame r src_port dst_port payload ttl ip_ident checksum = do
  udp ← build_udp_header src_port dst_port payload checksum none none
  let args = header_args r.src_ip r.dst_ip ip_proto_udp (length udp)
  ip ← build_ipv4_header (record args { ttl = ttl; ident = ip_ident })
  wrap r ip udp

unfoldable pub build_ip_frame_with_proto : Route → ℕ → Bytes → ℕ → ℕ → Result Bytes
unfolding wrap
build_ip_frame_with_proto r protocol payload ttl ip_ident = do
  let args = header_args r.src_ip r.dst_ip protocol (length payload)
  ip ← build_ipv4_header (record args { ttl = ttl; ident = ip_ident })
  wrap r ip payload

-- The knobs of `build_bogus_ip_frame`.
pub record Bogus : Type 0 where
  pub version : ℕ
  pub ihl : ℕ
  pub tos : ℕ
  pub total_length_override : Option ℕ
  pub ident : ℕ
  pub flags : ℕ
  pub frag_off : ℕ
  pub ttl : ℕ
  pub protocol : ℕ
  pub bad_checksum : Bool
  pub options : Bytes
  pub payload : Bytes
  pub truncate_to : Option ℕ

-- Zero bytes where `ihl > 5` and no options are given.
abbrev pub filled_options : Bogus → Bytes
filled_options x =
    if ltb 5 x.ihl && (length x.options == 0) then replicate ((x.ihl - 5) * 4) 0 else x.options

abbrev pub bogus_length : Option ℕ → Bytes → Bytes → ℕ
bogus_length (some given) options payload = given
bogus_length none options payload = ip_hdr_min + length options + length payload

abbrev pub truncated : Option ℕ → Bytes → Bytes
truncated none frame = frame
truncated (some n) frame = take (eth_header_len + n) frame

-- Options of a positive length never agree with `(ihl - 5) * 4` for `ihl` up to 5, where that is at
-- most 0, so the natural subtraction gives the same answer.
unfoldable pub build_bogus_ip_frame : Route → Bogus → Result Bytes
unfolding wrap
build_bogus_ip_frame r x = do
  guard (length x.options == 0 || length x.options == (x.ihl - 5) * 4) value_error
  let options = filled_options x
  let total_length = bogus_length x.total_length_override options x.payload
  guard (leb total_length 0xffff) value_error
  header ←
      pack_header (bit_or (x.version * 2 ^ 4) x.ihl) x.tos total_length x.ident
        (bit_or (x.flags - bit_and x.flags ip_frag_offset_mask)
          (bit_and (x.frag_off / 2 ^ 3) ip_frag_offset_mask))
        x.ttl x.protocol r.src_ip r.dst_ip
  let cksum = if x.bad_checksum then 0xbeef else ip_checksum (header ++ options)
  frame ← wrap r (splice_checksum header cksum) (options ++ x.payload)
  ok (truncated x.truncate_to frame)
