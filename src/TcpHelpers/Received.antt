-- ===== src/TcpHelpers/Received.antt =====
-- The frames that `build_tcp_frame` makes, read by the receiving side.
use ws_pi.Base.{ℕ, ◌+◌, ◌-◌, ◌≤◌, ◌≡◌, refl, sym, ◌∙◌, ap, arith}
use ws_pi.Base.{
  append_assoc, some, [], ◌∷◌, ◌++◌, true, false, length, length-append, take, drop, slice, ok,
}
use ws_pi.Base.{drop-append_length, take_all, drop-drop, ltb, leb, if◌then◌else◌}
use ws_pi.Base.Bytes.{Bytes, be16, be16_at, six}
use ws_pi.Checksum.{ip_checksum}
use ws_pi.Checksum.Verify.{ip_checksum-splice}
use ws_pi.Eth.{parse_eth_header, ethertype_ipv4}
use ws_pi.Eth.Laws.{build_eth_header-eq_ok, parse_eth_header-append}
use ws_pi.Frames.{Route}
use ws_pi.Frames.Layers.{IsRoute, eth_of, drop_eth, drop_header}
use ws_pi.Ip.Header.{built_header, front, addresses}
use ws_pi.TcpHelpers.{Segment, build_tcp_frame}
use ws_pi.TcpHelpers.Parse.{
  IpHeader, parse_tcp_header, parse_ip_header, is_tcp_from, is_tcp_between, is_for_ports,
  payload_of, same_bytes, tcp_payload, tcp_at,
}
use ws_pi.TcpHelpers.Packet.{
  IsSegment, header_len, tcp_len, tcp_bytes, tcp_sum, pseudo, ip_args, build_tcp_packet-eq_ok,
  length-tcp_bytes, tcp_sum-le, tcp_sum-verifies,
}
use ws_pi.TcpHelpers.Fields.{read_of, word, parse_tcp-front, parse_tcp_header-append}

cut_payload :
    (payload : Bytes) (from to : ℕ)
    → to ≡ from + length payload
    → (if leb to from then [] else take (to - from) payload) ≡ payload
cut_payload [] from to h = let nothing : leb to from ≡ true = ground arith in rw nothing
cut_payload (x ∷ payload) from to h =
    let something : leb to from ≡ false = ground arith in
    rw something (take_all (to - from) (x ∷ payload) (omega arith))

pub same_bytes_refl : (m : Bytes) → same_bytes m m ≡ true
same_bytes_refl [] = refl
same_bytes_refl (x ∷ m) = ground (arith, same_bytes_refl m)

abbrev pub frame_of : Route → Segment → ℕ → Bytes
frame_of r s c = eth_of r ++ (built_header (ip_args r.src_ip r.dst_ip (tcp_len s)) ++ tcp_bytes s c)

pub build_tcp_frame-eq_ok :
    (r : Route) (s : Segment) (v : IsRoute r) (w : IsSegment s)
    → build_tcp_frame r s ≡ ok (frame_of r s (tcp_sum s w r.src_ip r.dst_ip))
unfolding build_tcp_frame
build_tcp_frame-eq_ok r s v w = rw (
  build_tcp_packet-eq_ok s w r.src_ip r.dst_ip v.src_ip_valid v.dst_ip_valid,
  build_eth_header-eq_ok r.dst_mac r.src_mac ethertype_ipv4 v.dst_mac_long v.src_mac_long
      (omega arith),
)

module _ (r : Route) (s : Segment) (v : IsRoute r) (w : IsSegment s) (c : ℕ) (h : c ≤ 0xffff) where
  abbrev before_tcp : Bytes
  before_tcp = eth_of r ++ built_header (ip_args r.src_ip r.dst_ip (tcp_len s))

  length-before_tcp : length before_tcp ≡ tcp_at
  length-before_tcp =
      let (d0, d1, d2, d3, d4, d5, ed) = six r.dst_mac v.dst_mac_long in
      let (s0, s1, s2, s3, s4, s5, es) = six r.src_mac v.src_mac_long in rw (ed, es)

  parse_tcp-frame : parse_tcp_header (frame_of r s c) tcp_at ≡ some (read_of s c)
  parse_tcp-frame =
      sym (ap (λ t. parse_tcp_header t tcp_at) (append_assoc (eth_of r) _ (tcp_bytes s c)))
      ∙ ap (parse_tcp_header (before_tcp ++ tcp_bytes s c)) (sym length-before_tcp)
      ∙ parse_tcp_header-append before_tcp (tcp_bytes s c)
      ∙ parse_tcp-front s w c h

  length-frame_of : length (frame_of r s c) ≡ 34 + tcp_len s
  length-frame_of = omega (
    arith,
    ap length (
        append_assoc (eth_of r) (built_header (ip_args r.src_ip r.dst_ip (tcp_len s)))
          (tcp_bytes s c)),
    length-append before_tcp (tcp_bytes s c),
    length-before_tcp,
    length-tcp_bytes s c,
  )

  -- The IPv4 header that is read back.
  abbrev ip_read : IpHeader
  ip_read = record {
    version = 4;
    ihl = 20;
    total_len = tcp_len s + 20;
    ttl = 64;
    proto = 6;
    src = r.src_ip;
    dst = r.dst_ip;
  }

  parse_ip-built :
      (rest : Bytes)
      → parse_ip_header (built_header (ip_args r.src_ip r.dst_ip (tcp_len s)) ++ rest)
        ≡ some ip_read
  unfolding parse_ip_header
  parse_ip-built rest = rw (word (tcp_len s + 20) (omega arith)) (ground arith)

  parse_ip-slice : parse_ip_header (slice 14 34 (frame_of r s c)) ≡ some ip_read
  parse_ip-slice =
      ap (λ t. parse_ip_header (take 20 t))
        (drop_eth r (built_header (ip_args r.src_ip r.dst_ip (tcp_len s)) ++ tcp_bytes s c) v)
      ∙ parse_ip-built []

  parse_eth-frame :
      parse_eth_header (frame_of r s c)
      ≡ ok (record { dst = r.dst_mac; src = r.src_mac; ethertype = ethertype_ipv4 })
  parse_eth-frame =
      let after = built_header (ip_args r.src_ip r.dst_ip (tcp_len s)) ++ tcp_bytes s c in
      ap parse_eth_header (
        append_assoc r.dst_mac (r.src_mac ++ be16 ethertype_ipv4) after
        ∙ ap (λ t. r.dst_mac ++ t) (append_assoc r.src_mac (be16 ethertype_ipv4) after))
      ∙ parse_eth_header-append r.dst_mac r.src_mac ethertype_ipv4 after v.dst_mac_long
          v.src_mac_long (omega arith)

  is_tcp_from-frame_of : is_tcp_from (frame_of r s c) r s.src_port s.dst_port ≡ ok true
  unfolding is_tcp_from is_tcp_between is_for_ports
  is_tcp_from-frame_of =
      let long_enough : ltb (length (frame_of r s c)) 54 ≡ false =
        ground (arith, length-frame_of) in
      rw
        (
          long_enough,
          parse_eth-frame,
          parse_ip-slice,
          parse_tcp-frame,
          same_bytes_refl r.src_mac,
          same_bytes_refl r.dst_mac,
        )
        (ground arith)

  drop_to_payload : drop (tcp_at + header_len s) (frame_of r s c) ≡ s.payload
  drop_to_payload =
      sym (drop-drop tcp_at (header_len s) (frame_of r s c))
      ∙ ap (drop (header_len s))
          (drop_header r (ip_args r.src_ip r.dst_ip (tcp_len s)) _ (tcp_bytes s c) v)
      ∙ sym (drop-drop 20 (length s.options) (tcp_bytes s c))
      ∙ drop-append_length s.options s.payload

  tcp_payload-frame_of : tcp_payload (frame_of r s c) ≡ ok s.payload
  unfolding tcp_payload payload_of
  tcp_payload-frame_of =
      rw
        (
          drop_eth r (built_header (ip_args r.src_ip r.dst_ip (tcp_len s)) ++ tcp_bytes s c) v,
          parse_ip-built (tcp_bytes s c),
          parse_tcp-frame,
        )
        (ap ok (
          ap
            (λ t.
              if leb (14 + (tcp_len s + 20)) (tcp_at + header_len s)
              then []
              else take (14 + (tcp_len s + 20) - (tcp_at + header_len s)) t)
            drop_to_payload
          ∙ cut_payload s.payload (tcp_at + header_len s) (14 + (tcp_len s + 20)) (omega arith)))

  ethertype-frame_of : be16_at (slice 12 14 (frame_of r s c)) ≡ ethertype_ipv4
  ethertype-frame_of =
      let (d0, d1, d2, d3, d4, d5, ed) = six r.dst_mac v.dst_mac_long in
      let (s0, s1, s2, s3, s4, s5, es) = six r.src_mac v.src_mac_long in rw (ed, es)

-- What a receiver makes of a frame: it is a segment between the given addresses and ports, its fields
-- and its payload are read back, and both checksums verify.
pub record IsReceived (r : Route) (s : Segment) (frame : Bytes) : Type 0 where
  pub accepted : is_tcp_from frame r s.src_port s.dst_port ≡ ok true
  pub fields : (c : ℕ) × (parse_tcp_header frame tcp_at ≡ some (read_of s c))
  pub carried : tcp_payload frame ≡ ok s.payload
  pub ip_verifies : ip_checksum (slice 14 34 frame) ≡ 0
  pub is_ipv4 : be16_at (slice 12 14 frame) ≡ ethertype_ipv4
  pub tcp_verifies : ip_checksum (pseudo r.src_ip r.dst_ip (tcp_len s) ++ drop 34 frame) ≡ 0

-- For two addresses and a segment whose fields fit, with options of at most 40 bytes in a multiple of
-- 4, `build_tcp_frame` returns a frame of 54 bytes, the options and the payload, which `_is_tcp_from`
-- accepts, `parse_tcp_header` and `_tcp_payload` read back, and whose IPv4 and TCP checksums verify.
pub build_tcp_frame-IsReceived :
    (r : Route) (s : Segment)
    → IsRoute r
    → IsSegment s
    → (frame : Bytes) × (build_tcp_frame r s ≡ ok frame)
      × (length frame ≡ 34 + tcp_len s)
      × IsReceived r s frame
build_tcp_frame-IsReceived r s v w =
    let c = tcp_sum s w r.src_ip r.dst_ip in
    let h : c ≤ 0xffff = tcp_sum-le s w r.src_ip r.dst_ip in
    let x = ip_args r.src_ip r.dst_ip (tcp_len s) in
    (
      frame_of r s c,
      build_tcp_frame-eq_ok r s v w,
      length-frame_of r s v w c h,
      record {
        accepted = is_tcp_from-frame_of r s v w c h;
        fields = (c, parse_tcp-frame r s v w c h);
        carried = tcp_payload-frame_of r s v w c h;
        ip_verifies =
            ap (λ t. ip_checksum (take 20 t)) (drop_eth r (built_header x ++ tcp_bytes s c) v)
            ∙ ip_checksum-splice (front x) (addresses x) refl;
        is_ipv4 = ethertype-frame_of r s v w c h;
        tcp_verifies =
            ap (λ t. ip_checksum (pseudo r.src_ip r.dst_ip (tcp_len s) ++ t))
              (drop_header r x _ (tcp_bytes s c) v)
            ∙ tcp_sum-verifies s w r.src_ip r.dst_ip;
      },
    )
