-- ===== src/Frames/Layers.antt =====
-- Every layer of a built frame can be read back.
use ws_pi.Base.{ℕ, ◌≡◌, refl, arith, ◌++◌}
use ws_pi.Base.{length, drop, slice, ok, append_assoc}
use ws_pi.Base.Bytes.{Bytes, be16, IsIpAddr, six}
use ws_pi.Checksum.{ip_checksum}
use ws_pi.Checksum.Verify.{ip_checksum-lt, ip_checksum-splice}
use ws_pi.Eth.{parse_eth_header, ethertype_ipv4}
use ws_pi.Eth.Laws.{build_eth_header-eq_ok, parse_eth_header-append}
use ws_pi.Ip.{HeaderArgs, parse_ipv4_header}
use ws_pi.Ip.Header.{IsValidArgs, header_of, front, addresses, parse_ipv4_header-header_of}
use ws_pi.Ip.Header.{built_header}
use ws_pi.Ip.RoundTrip.{fields_of}
use ws_pi.Frames.{Route, wrap}

pub record IsRoute (r : Route) : Type 0 where
  pub src_mac_long : length r.src_mac ≡ 6
  pub dst_mac_long : length r.dst_mac ≡ 6
  pub src_ip_valid : IsIpAddr r.src_ip
  pub dst_ip_valid : IsIpAddr r.dst_ip

abbrev pub eth_of : Route → Bytes
eth_of r = r.dst_mac ++ (r.src_mac ++ be16 ethertype_ipv4)

pub wrap-eq_ok :
    (r : Route) (ip body : Bytes) → IsRoute r → wrap r ip body ≡ ok (eth_of r ++ (ip ++ body))
unfolding wrap
wrap-eq_ok r ip body v = rw (
    build_eth_header-eq_ok r.dst_mac r.src_mac ethertype_ipv4 v.dst_mac_long v.src_mac_long
      (omega arith))

-- The frame reads back as an Ethernet header for IPv4, the IPv4 header of `x` with the checksum `c`,
-- which verifies, and the body.
pub record IsLayered (r : Route) (x : HeaderArgs) (body frame : Bytes) : Type 0 where
  pub ethernet :
      parse_eth_header frame
      ≡ ok (record { dst = r.dst_mac; src = r.src_mac; ethertype = ethertype_ipv4 })
  pub ip_verifies : ip_checksum (slice 14 34 frame) ≡ 0
  pub ip_fields : (c : ℕ) × (parse_ipv4_header (drop 14 frame) ≡ ok (fields_of x c))
  pub carried : drop 34 frame ≡ body

pub drop_eth : (r : Route) (rest : Bytes) → IsRoute r → drop 14 (eth_of r ++ rest) ≡ rest
drop_eth r rest v =
    let (d0, d1, d2, d3, d4, d5, ed) = six r.dst_mac v.dst_mac_long in
    let (s0, s1, s2, s3, s4, s5, es) = six r.src_mac v.src_mac_long in rw (ed, es)

pub drop_header :
    (r : Route) (x : HeaderArgs) (c : ℕ) (body : Bytes)
    → IsRoute r
    → drop 34 (eth_of r ++ (header_of x c ++ body)) ≡ body
drop_header r x c body v =
    let (d0, d1, d2, d3, d4, d5, ed) = six r.dst_mac v.dst_mac_long in
    let (s0, s1, s2, s3, s4, s5, es) = six r.src_mac v.src_mac_long in rw (ed, es)

-- A valid header is wrapped into a layered frame.
pub wrap-IsLayered :
    (r : Route) (x : HeaderArgs) (body : Bytes)
    → IsRoute r
    → IsValidArgs x
    → IsLayered r x body (eth_of r ++ (built_header x ++ body))
wrap-IsLayered r x body v w =
    let c = ip_checksum (header_of x 0) in
    record {
      ethernet =
          rw (append_assoc, append_assoc)
            (parse_eth_header-append r.dst_mac r.src_mac ethertype_ipv4 (header_of x c ++ body)
              v.dst_mac_long v.src_mac_long (omega arith));
      ip_verifies =
          rw (drop_eth r (header_of x c ++ body) v)
            (ip_checksum-splice (front x) (addresses x) refl);
      ip_fields = (
        c,
        rw (drop_eth r (header_of x c ++ body) v) (
            parse_ipv4_header-header_of x w c body
              (ground (arith, ip_checksum-lt (header_of x 0)))),
      );
      carried = drop_header r x c body v;
    }
