-- ===== src/Frames/Echo.antt =====
-- The ICMP echo frame and the frame with an arbitrary protocol byte.
use ws_pi.Base.{ℕ, ◌+◌, ◌-◌, ◌≤◌, ◌≡◌, refl, arith, ◌++◌, Bool, false}
use ws_pi.Base.{length, if◌then◌else◌, ok}
use ws_pi.Base.Bytes.{Bytes, be16}
use ws_pi.Checksum.{ip_checksum}
use ws_pi.Ip.{HeaderArgs, header_args, ip_proto_icmp, ip_flag_df}
use ws_pi.Ip.Header.{IsValidArgs, built_header, build_ipv4_header-none}
use ws_pi.Icmp.{parse_icmp}
use ws_pi.Icmp.RoundTrip.{parse_icmp-build_icmp_echo_request, length-build_icmp_echo_request}
use ws_pi.Frames.{Route, build_icmp_echo_frame, build_ip_frame_with_proto}
use ws_pi.Frames.Layers.{IsRoute, IsLayered, wrap-eq_ok, wrap-IsLayered}

abbrev pub proto_args : Route → ℕ → ℕ → ℕ → ℕ → HeaderArgs
proto_args r protocol len ttl ip_ident =
    let args = header_args r.src_ip r.dst_ip protocol len in
    record args { ttl = ttl; ident = ip_ident }

abbrev pub echo_args : Route → ℕ → ℕ → ℕ → Bool → HeaderArgs
echo_args r len ttl ip_ident df =
    let args = header_args r.src_ip r.dst_ip ip_proto_icmp len in
    record args { ttl = ttl; ident = ip_ident; flags = if df then ip_flag_df else 0 }

proto_args-IsValidArgs :
    (r : Route) (protocol len ttl ip_ident : ℕ)
    → IsRoute r
    → protocol ≤ 0xff
    → len ≤ 0xffff - 20
    → ttl ≤ 0xff
    → ip_ident ≤ 0xffff
    → IsValidArgs (proto_args r protocol len ttl ip_ident)
proto_args-IsValidArgs r protocol len ttl ip_ident v hp hl ht hi = ground arith

echo_args-IsValidArgs :
    (r : Route) (len ttl ip_ident : ℕ) (df : Bool)
    → IsRoute r
    → len ≤ 0xffff - 20
    → ttl ≤ 0xff
    → ip_ident ≤ 0xffff
    → IsValidArgs (echo_args r len ttl ip_ident df)
echo_args-IsValidArgs r len ttl ip_ident df v hl ht hi = ground arith

-- For a valid route, a protocol byte, a TTL byte, a 16-bit identification and a payload that fits an
-- IPv4 datagram, `build_ip_frame_with_proto` returns a frame whose Ethernet header, IPv4 header (with
-- a checksum that verifies) and payload all read back as given.
pub build_ip_frame_with_proto-IsLayered :
    (r : Route) (protocol : ℕ) (payload : Bytes) (ttl ip_ident : ℕ)
    → IsRoute r
    → protocol ≤ 0xff
    → length payload ≤ 0xffff - 20
    → ttl ≤ 0xff
    → ip_ident ≤ 0xffff
    → (frame : Bytes) × (build_ip_frame_with_proto r protocol payload ttl ip_ident ≡ ok frame)
      × IsLayered r (proto_args r protocol (length payload) ttl ip_ident) payload frame
unfolding build_ip_frame_with_proto
build_ip_frame_with_proto-IsLayered r protocol payload ttl ip_ident v hp hl ht hi =
    let x = proto_args r protocol (length payload) ttl ip_ident in
    let w : IsValidArgs x =
      proto_args-IsValidArgs r protocol (length payload) ttl ip_ident v hp hl ht hi in
    (
      _,
      rw (build_ipv4_header-none x w refl) (wrap-eq_ok r (built_header x) payload v),
      wrap-IsLayered r x payload v w,
    )

-- For a valid route, 16-bit identifiers and sequence number, a TTL byte and a payload that fits an IPv4
-- datagram, `build_icmp_echo_frame` with no bad checksum returns a frame whose Ethernet and IPv4
-- headers read back as given and whose body is an ICMP message that verifies to 0, with or without
-- the Don't Fragment flag.
pub build_icmp_echo_frame-IsLayered :
    (r : Route) (ident seq : ℕ) (payload : Bytes) (ttl ip_ident : ℕ) (df : Bool)
    → IsRoute r
    → ident ≤ 0xffff
    → seq ≤ 0xffff
    → 8 + length payload ≤ 0xffff - 20
    → ttl ≤ 0xff
    → ip_ident ≤ 0xffff
    → (frame icmp : Bytes) × (c : ℕ) × (build_icmp_echo_frame r ident seq payload ttl ip_ident df
          false false
        ≡ ok frame)
      × IsLayered r (echo_args r (8 + length payload) ttl ip_ident df) icmp frame
      × (ip_checksum icmp ≡ 0)
      × (parse_icmp icmp
          ≡ ok (record {
            kind = 8;
            code = 0;
            checksum = c;
            ident = ident;
            seq = seq;
            rest = be16 ident ++ be16 seq;
            payload = payload;
          }))
unfolding build_icmp_echo_frame
build_icmp_echo_frame-IsLayered r ident seq payload ttl ip_ident df v hi hs hl ht hp =
    let (icmp, c, built, verifies, parsed) =
      parse_icmp-build_icmp_echo_request ident seq payload hi hs in
    let x = echo_args r (8 + length payload) ttl ip_ident df in
    let w : IsValidArgs x =
      echo_args-IsValidArgs r (8 + length payload) ttl ip_ident df v hl ht hp in
    (
      _,
      icmp,
      c,
      rw
          (
            built,
            length-build_icmp_echo_request ident seq payload hi hs built,
            build_ipv4_header-none x w refl,
          )
          (wrap-eq_ok r (built_header x) icmp v),
      wrap-IsLayered r x icmp v w,
      verifies,
      parsed,
    )
