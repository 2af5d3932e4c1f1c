-- ===== src/Ip/Header.antt =====
-- The IPv4 header that `build_ipv4_header` makes, byte by byte, and its round trip.
use ws_pi.Base.{ℕ, ◌+◌, ◌-◌, ◌*◌, ◌/◌, ◌%◌, ◌^◌, ◌≤◌, ◌<◌, ◌≡◌, subst, arith}
use ws_pi.Base.{none, some, [], ◌∷◌, ◌++◌, bit_and, bit_or, ok}
use ws_pi.Base.Bits.{bit_and_mask, bit_or_disjoint}
use ws_pi.Base.Bytes.{Bytes, be16, octets, IsIpAddr, inet_aton-eq_ok}
use ws_pi.Checksum.{ip_checksum}
use ws_pi.Ip.{HeaderArgs, build_ipv4_header, parse_ipv4_header, pack_header}
use ws_pi.Ip.{check_fields, chosen_checksum}

-- What the fields of a header must satisfy.
pub record IsValidArgs (x : HeaderArgs) : Type 0 where
  pub version_fits : x.version ≤ 0xf
  pub ihl_fits : x.ihl ≤ 0xf
  pub tos_fits : x.tos ≤ 0xff
  pub ttl_fits : x.ttl ≤ 0xff
  pub protocol_fits : x.protocol ≤ 0xff
  pub ident_fits : x.ident ≤ 0xffff
  pub payload_len_fits : x.payload_len ≤ 0xffff - 20
  pub frag_off_fits : x.frag_off ≤ 0x1fff * 8
  pub frag_off_aligned : x.frag_off % 8 ≡ 0
  pub flags_fit : x.flags ≤ 0xffff
  pub flags_high : x.flags % 2 ^ 13 ≡ 0
  pub src_valid : IsIpAddr x.src_ip
  pub dst_valid : IsIpAddr x.dst_ip

abbrev pub frag_word : HeaderArgs → ℕ
frag_word x = x.flags + x.frag_off / 8

abbrev pub front : HeaderArgs → Bytes
front x =
    (x.version * 16 + x.ihl)
    ∷ x.tos
    ∷ ((x.payload_len + 20) / 256 % 256)
    ∷ ((x.payload_len + 20) % 256)
    ∷ (x.ident / 256 % 256)
    ∷ (x.ident % 256)
    ∷ (frag_word x / 256 % 256)
    ∷ (frag_word x % 256)
    ∷ x.ttl
    ∷ x.protocol
    ∷ []

abbrev pub addresses : HeaderArgs → Bytes
addresses x = octets x.src_ip ++ octets x.dst_ip

-- The 20 bytes of the header, with `c` in the checksum field.
abbrev pub header_of : HeaderArgs → ℕ → Bytes
header_of x c = front x ++ (be16 c ++ addresses x)

-- The header with its computed checksum.
abbrev pub built_header : HeaderArgs → Bytes
built_header x = header_of x (ip_checksum (header_of x 0))

pub low_three : (a : ℕ) → bit_and a 0x7 ≡ a % 8
low_three a = bit_and_mask 3 a

pub low_four : (a : ℕ) → bit_and a 0xf ≡ a % 16
low_four a = bit_and_mask 4 a

pub low_thirteen : (a : ℕ) → bit_and a 0x1fff ≡ a % 2 ^ 13
low_thirteen a = bit_and_mask 13 a

pub or_four : (a b : ℕ) → b < 16 → bit_or (a * 2 ^ 4) b ≡ a * 16 + b
or_four a b h = bit_or_disjoint 4 a b h

pub or_thirteen : (a b : ℕ) → a % 2 ^ 13 ≡ 0 → b < 2 ^ 13 → bit_or a b ≡ a + b
or_thirteen a b h k =
    let e : a / 2 ^ 13 * 2 ^ 13 ≡ a = omega arith in
    subst (λ t. bit_or t b ≡ t + b) e (bit_or_disjoint 13 (a / 2 ^ 13) b k)

module _ (x : HeaderArgs) (v : IsValidArgs x) where
  pub pack_header-eq_ok :
      pack_header
        (x.version * 16 + x.ihl)
        x.tos
        (x.payload_len + 20)
        x.ident
        (frag_word x)
        x.ttl
        x.protocol
        x.src_ip
        x.dst_ip
      ≡ ok (header_of x 0)
  unfolding pack_header
  pack_header-eq_ok =
      rw (inet_aton-eq_ok x.src_ip v.src_valid, inet_aton-eq_ok x.dst_ip v.dst_valid) (ground arith)

  pub parse_ipv4_header-header_of :
      (c : ℕ) (rest : Bytes)
      → c ≤ 0xffff
      → parse_ipv4_header (header_of x c ++ rest)
        ≡ ok (record {
          version = x.version;
          ihl = x.ihl;
          tos = x.tos;
          total_length = x.payload_len + 20;
          ident = x.ident;
          flags = x.flags;
          frag_off = x.frag_off;
          ttl = x.ttl;
          protocol = x.protocol;
          checksum = c;
          src_ip = x.src_ip;
          dst_ip = x.dst_ip;
        })
  unfolding parse_ipv4_header
  parse_ipv4_header-header_of c rest h = rw (low_four, low_thirteen) (ground arith)

  check_fields-eq_ok : check_fields x ≡ ok tt
  check_fields-eq_ok = rw (low_three, low_thirteen) (ground arith)

  build_of_choice :
      (c : ℕ)
      → chosen_checksum x.checksum (ip_checksum (header_of x 0)) ≡ ok c
      → build_ipv4_header x ≡ ok (header_of x c)
  unfolding build_ipv4_header
  build_of_choice c e =
      rw (check_fields-eq_ok, or_four x.version x.ihl (omega arith), word, pack_header-eq_ok, e)
    where
      word : bit_or x.flags (x.frag_off / 2 ^ 3) ≡ frag_word x
      word = or_thirteen x.flags (x.frag_off / 8) v.flags_high (omega arith)

  pub build_ipv4_header-none : x.checksum ≡ none → build_ipv4_header x ≡ ok (built_header x)
  build_ipv4_header-none e = build_of_choice _ (rw e)

  pub build_ipv4_header-some :
      (c : ℕ) → c ≤ 0xffff → x.checksum ≡ some c → build_ipv4_header x ≡ ok (header_of x c)
  build_ipv4_header-some c h e = build_of_choice c (rw e (ground arith))
