-- ===== src/Checks/Layers.antt =====
-- The headers and frames of hw_test/ip_frames.py on small inputs.
use ws_pi.Base.{ℕ, ◌≤◌, ◌≡◌, ◌≢◌, refl, arith, none, some, [], ◌∷◌, ◌++◌}
use ws_pi.Base.{length, ok, true, false}
use ws_pi.Base.Bytes.{Bytes, be16}
use ws_pi.Checksum.{ip_checksum}
use ws_pi.Ip.{HeaderArgs, build_ipv4_header, parse_ipv4_header}
use ws_pi.Ip.Header.{IsValidArgs}
use ws_pi.Ip.RoundTrip.{fields_of, parse_ipv4_header-build_ipv4_header}
use ws_pi.Ip.Outcome.{HeaderResult, build_ipv4_header-HeaderResult}
use ws_pi.Icmp.{build_icmp_echo_request, parse_icmp}
use ws_pi.Icmp.RoundTrip.{parse_icmp-build_icmp_echo_request}
use ws_pi.Udp.{build_udp_header}
use ws_pi.Udp.Checked.{segment_of, pseudo_of, build_udp_header_verifies}
use ws_pi.Frames.{Route, build_icmp_echo_frame, build_ip_frame_with_proto}
use ws_pi.Frames.Layers.{IsRoute, IsLayered}
use ws_pi.Frames.Echo.{proto_args, echo_args, build_ip_frame_with_proto-IsLayered}
use ws_pi.Frames.Echo.{build_icmp_echo_frame-IsLayered}
use ws_pi.Checks.Net.{our_mac, peer_mac, our_ip, peer_ip}

abbrev hello : Bytes
hello = 0x48 ∷ 0x65 ∷ 0x6c ∷ 0x6c ∷ 0x6f ∷ []

abbrev plain : HeaderArgs
plain = record {
  src_ip = our_ip;
  dst_ip = peer_ip;
  protocol = 17;
  payload_len = 13;
  ttl = 64;
  tos = 0;
  ident = 0x1234;
  flags = 0x4000;
  frag_off = 0;
  version = 4;
  ihl = 5;
  checksum = none;
}

abbrev given : HeaderArgs
given = record plain { checksum = some 0x1234 }

-- No check is on the flags' 16 bits.
abbrev wide_flags : HeaderArgs
wide_flags = record plain { flags = 0x10000 }

plain-IsValidArgs : IsValidArgs plain
plain-IsValidArgs = ground arith

given-IsValidArgs : IsValidArgs given
given-IsValidArgs = ground arith

parse_ipv4_header-build_ipv4_header_example :
    (header : Bytes) × (build_ipv4_header plain ≡ ok header)
    × (length header ≡ 20)
    × (ip_checksum header ≡ 0)
    × ((c : ℕ) × (parse_ipv4_header (header ++ hello) ≡ ok (fields_of plain c)))
parse_ipv4_header-build_ipv4_header_example =
    parse_ipv4_header-build_ipv4_header plain hello plain-IsValidArgs refl

build_ipv4_header-HeaderResult_example : HeaderResult wide_flags (build_ipv4_header wide_flags)
build_ipv4_header-HeaderResult_example =
    build_ipv4_header-HeaderResult wide_flags plain-IsValidArgs.src_valid
      plain-IsValidArgs.dst_valid

parse_icmp-build_icmp_echo_request_example :
    (msg : Bytes) × (c : ℕ) × (build_icmp_echo_request 7 1 hello false ≡ ok msg)
    × (ip_checksum msg ≡ 0)
    × (parse_icmp msg
        ≡ ok (record {
          kind = 8;
          code = 0;
          checksum = c;
          ident = 7;
          seq = 1;
          rest = be16 7 ++ be16 1;
          payload = hello;
        }))
parse_icmp-build_icmp_echo_request_example =
    parse_icmp-build_icmp_echo_request 7 1 hello (omega arith) (omega arith)

build_udp_header_verifies_example :
    (c : ℕ) × (build_udp_header 12345 7 hello none (some our_ip) (some peer_ip)
      ≡ ok (segment_of 12345 7 13 c hello))
    × (c ≢ 0)
    × (c ≤ 0xffff)
    × (ip_checksum (pseudo_of our_ip peer_ip 13 ++ segment_of 12345 7 13 c hello) ≡ 0)
build_udp_header_verifies_example =
    build_udp_header_verifies 12345 7 hello our_ip peer_ip (omega arith) (omega arith) (omega arith)
      (omega arith) (omega arith)

abbrev pub route : Route
route = record { src_mac = our_mac; dst_mac = peer_mac; src_ip = our_ip; dst_ip = peer_ip }

pub route-IsRoute : IsRoute route
route-IsRoute = record {
  src_mac_long = refl;
  dst_mac_long = refl;
  src_ip_valid = omega arith;
  dst_ip_valid = omega arith;
}

build_ip_frame_with_proto-IsLayered_example :
    (frame : Bytes) × (build_ip_frame_with_proto route 253 hello 64 9 ≡ ok frame)
    × IsLayered route (proto_args route 253 5 64 9) hello frame
build_ip_frame_with_proto-IsLayered_example =
    build_ip_frame_with_proto-IsLayered route 253 hello 64 9 route-IsRoute (omega arith)
      (omega arith) (omega arith) (omega arith)

build_icmp_echo_frame-IsLayered_example :
    (frame icmp : Bytes) × (c : ℕ) × (build_icmp_echo_frame route 7 1 hello 64 9 true false false
      ≡ ok frame)
    × IsLayered route (echo_args route 13 64 9 true) icmp frame
    × (ip_checksum icmp ≡ 0)
    × (parse_icmp icmp
        ≡ ok (record {
          kind = 8;
          code = 0;
          checksum = c;
          ident = 7;
          seq = 1;
          rest = be16 7 ++ be16 1;
          payload = hello;
        }))
build_icmp_echo_frame-IsLayered_example =
    build_icmp_echo_frame-IsLayered route 7 1 hello 64 9 true route-IsRoute (omega arith)
      (omega arith) (omega arith) (omega arith) (omega arith)
