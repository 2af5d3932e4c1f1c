-- ===== src/Ip/RoundTrip.antt =====
-- `build_ipv4_header` against `parse_ipv4_header` and against a receiver's checks.
use ws_pi.Base.{ℕ, ◌+◌, ◌≤◌, ◌≡◌, refl, arith}
use ws_pi.Base.{none, some, ◌++◌, length, ok}
use ws_pi.Base.Bytes.{Bytes}
use ws_pi.Checksum.{ip_checksum}
use ws_pi.Checksum.Verify.{ip_checksum-lt, ip_checksum-splice}
use ws_pi.Ip.{HeaderArgs, Ipv4Header, build_ipv4_header, parse_ipv4_header}
use ws_pi.Ip.Header.{IsValidArgs, header_of, front, addresses, parse_ipv4_header-header_of}
use ws_pi.Ip.Header.{build_ipv4_header-none, build_ipv4_header-some}

-- What a parse of a header built from `x` gives, with `c` in the checksum field.
abbrev pub fields_of : HeaderArgs → ℕ → Ipv4Header
fields_of x c = record {
  version = x.version;
  ihl = x.ihl;
  tos = x.tos;
  total_length = x.payload_len + 20;
  ident = x.ident;
  flags = x.flags;
  frag_off = x.frag_off;
  ttl = x.ttl;
  protocol = x.protocol;
  checksum = c;
  src_ip = x.src_ip;
  dst_ip = x.dst_ip;
}

-- For fields in range and no checksum given, `build_ipv4_header` returns 20 bytes whose checksum
-- verifies to 0, and whatever follows them `parse_ipv4_header` reads every field back.
pub parse_ipv4_header-build_ipv4_header :
    (x : HeaderArgs) (rest : Bytes)
    → IsValidArgs x
    → x.checksum ≡ none
    → (header : Bytes) × (build_ipv4_header x ≡ ok header)
      × (length header ≡ 20)
      × (ip_checksum header ≡ 0)
      × ((c : ℕ) × (parse_ipv4_header (header ++ rest) ≡ ok (fields_of x c)))
parse_ipv4_header-build_ipv4_header x rest v e =
    let c = ip_checksum (header_of x 0) in
    (
      header_of x c,
      build_ipv4_header-none x v e,
      refl,
      ip_checksum-splice (front x) (addresses x) refl,
      (c, parse_ipv4_header-header_of x v c rest (ground (arith, ip_checksum-lt (header_of x 0)))),
    )

-- For fields in range and a given 16-bit checksum, `build_ipv4_header` stores that checksum as it is,
-- and `parse_ipv4_header` reads it back with every other field.
pub parse_ipv4_header-build_checksum :
    (x : HeaderArgs) (given : ℕ) (rest : Bytes)
    → IsValidArgs x
    → given ≤ 0xffff
    → x.checksum ≡ some given
    → (header : Bytes) × (build_ipv4_header x ≡ ok header)
      × (length header ≡ 20)
      × (parse_ipv4_header (header ++ rest) ≡ ok (fields_of x given))
parse_ipv4_header-build_checksum x given rest v h e = (
  header_of x given,
  build_ipv4_header-some x v given h e,
  refl,
  parse_ipv4_header-header_of x v given rest h,
)
