-- ===== src/Ip/Outcome.antt =====
-- What `build_ipv4_header` does on any arguments, its errors included.
use ws_pi.Base.{
  ℕ, ◌-◌, ◌*◌, ◌/◌, ◌%◌, ◌^◌, ◌≤◌, ◌<◌, ◌≡◌, ◌≢◌, ◌⊎◌, inl, inr, refl, sym, ap, ◌∙◌, arith,
}
use ws_pi.Base.{
  append-nil, Option, none, some, [], bit_or, length, Result, ok, err, value_error, struct_error,
}
use ws_pi.Base.Bytes.{Bytes, pack_u8, pack_be16, IsIpAddr, inet_aton-eq_ok}
use ws_pi.Checksum.{ip_checksum}
use ws_pi.Ip.{HeaderArgs, build_ipv4_header, parse_ipv4_header, check_fields, pack_header}
use ws_pi.Ip.Header.{IsValidArgs, low_three, low_thirteen, or_four, or_thirteen}
use ws_pi.Ip.Header.{frag_word, pack_header-eq_ok}
use ws_pi.Ip.RoundTrip.{fields_of, parse_ipv4_header-build_ipv4_header}
use ws_pi.Ip.RoundTrip.{parse_ipv4_header-build_checksum}

-- The fields that the code checks, all of them as it wants them.
pub record IsChecked (x : HeaderArgs) : Type 0 where
  pub version_fits : x.version ≤ 0xf
  pub ihl_fits : x.ihl ≤ 0xf
  pub tos_fits : x.tos ≤ 0xff
  pub ttl_fits : x.ttl ≤ 0xff
  pub protocol_fits : x.protocol ≤ 0xff
  pub ident_fits : x.ident ≤ 0xffff
  pub payload_len_fits : x.payload_len ≤ 0xffff - 20
  pub frag_off_fits : x.frag_off ≤ 0x1fff * 8
  pub frag_off_aligned : x.frag_off % 8 ≡ 0
  pub flags_high : x.flags % 2 ^ 13 ≡ 0

-- One of them is not.
abbrev pub OutOfRange : HeaderArgs → Type 0
OutOfRange x =
    (0xf < x.version)
    ⊎ (0xf < x.ihl)
    ⊎ (0xff < x.tos)
    ⊎ (0xff < x.ttl)
    ⊎ (0xff < x.protocol)
    ⊎ (0xffff < x.ident)
    ⊎ (0xffff - 20 < x.payload_len)
    ⊎ (0x1fff * 8 < x.frag_off)
    ⊎ (x.frag_off % 8 ≢ 0)
    ⊎ (x.flags % 2 ^ 13 ≢ 0)

-- The flags word, which is not checked against 16 bits, and the caller's checksum come last.
pub data HeaderResult (x : HeaderArgs) : Result Bytes → Type 0 where
  refused : OutOfRange x → HeaderResult x (err value_error)
  unpackable : IsChecked x → 0xffff < x.flags → HeaderResult x (err struct_error)
  bad_checksum :
      (given : ℕ)
      → IsChecked x
      → x.flags ≤ 0xffff
      → x.checksum ≡ some given
      → 0xffff < given
      → HeaderResult x (err value_error)
  built :
      (header : Bytes) (c : ℕ)
      → IsChecked x
      → x.flags ≤ 0xffff
      → length header ≡ 20
      → ((x.checksum ≡ none) × (ip_checksum header ≡ 0)) ⊎ (x.checksum ≡ some c)
      → parse_ipv4_header header ≡ ok (fields_of x c)
      → HeaderResult x (ok header)

OutOfRange-or_IsChecked : (x : HeaderArgs) → OutOfRange x ⊎ IsChecked x
OutOfRange-or_IsChecked x = elim (in_range_or_not x) [
  | inl out ↦ inl out
  | inr (h1, h2, h3, h4, h5, h6, h7, h8, h9, h10) ↦ inr (record {
    version_fits = h1;
    ihl_fits = h2;
    tos_fits = h3;
    ttl_fits = h4;
    protocol_fits = h5;
    ident_fits = h6;
    payload_len_fits = h7;
    frag_off_fits = h8;
    frag_off_aligned = h9;
    flags_high = h10;
  })
]
  where
    in_range_or_not :
        (x : HeaderArgs)
        → OutOfRange x
          ⊎ ((x.version ≤ 0xf)
              × (x.ihl ≤ 0xf)
              × (x.tos ≤ 0xff)
              × (x.ttl ≤ 0xff)
              × (x.protocol ≤ 0xff)
              × (x.ident ≤ 0xffff)
              × (x.payload_len ≤ 0xffff - 20)
              × (x.frag_off ≤ 0x1fff * 8)
              × (x.frag_off % 8 ≡ 0)
              × (x.flags % 2 ^ 13 ≡ 0))
    in_range_or_not x = ground arith

check_fields_rejects : (x : HeaderArgs) → OutOfRange x → check_fields x ≡ err value_error
check_fields_rejects x h = rw (low_three, low_thirteen) (ground arith)

build_ipv4_header_rejects : (x : HeaderArgs) → OutOfRange x → build_ipv4_header x ≡ err value_error
unfolding build_ipv4_header
build_ipv4_header_rejects x h = rw (check_fields_rejects x h)

small_or_wide : (n : ℕ) → (n ≤ 0xffff) ⊎ (0xffff < n)
small_or_wide n = ground arith

module _ (x : HeaderArgs) (v : IsChecked x) (s : IsIpAddr x.src_ip) (d : IsIpAddr x.dst_ip) where
  valid : x.flags ≤ 0xffff → IsValidArgs x
  valid h = record {
    version_fits = v.version_fits;
    ihl_fits = v.ihl_fits;
    tos_fits = v.tos_fits;
    ttl_fits = v.ttl_fits;
    protocol_fits = v.protocol_fits;
    ident_fits = v.ident_fits;
    payload_len_fits = v.payload_len_fits;
    frag_off_fits = v.frag_off_fits;
    frag_off_aligned = v.frag_off_aligned;
    flags_fit = h;
    flags_high = v.flags_high;
    src_valid = s;
    dst_valid = d;
  }

  check_fields-passes : check_fields x ≡ ok tt
  check_fields-passes = rw (low_three, low_thirteen) (ground arith)

  wide_flags : 0xffff < x.flags → build_ipv4_header x ≡ err struct_error
  unfolding build_ipv4_header pack_header pack_u8 pack_be16
  wide_flags h =
      let word : bit_or x.flags (x.frag_off / 2 ^ 3) ≡ frag_word x =
        or_thirteen x.flags (x.frag_off / 8) v.flags_high (omega arith) in
      rw
        (
          check_fields-passes,
          or_four x.version x.ihl (omega arith),
          word,
          inet_aton-eq_ok x.src_ip s,
          inet_aton-eq_ok x.dst_ip d,
        )
        (ground arith)

  wide_checksum :
      (given : ℕ)
      → x.flags ≤ 0xffff
      → x.checksum ≡ some given
      → 0xffff < given
      → build_ipv4_header x ≡ err value_error
  unfolding build_ipv4_header
  wide_checksum given h e g =
      let word : bit_or x.flags (x.frag_off / 2 ^ 3) ≡ frag_word x =
        or_thirteen x.flags (x.frag_off / 8) v.flags_high (omega arith) in
      rw
        (
          check_fields-passes,
          or_four x.version x.ihl (omega arith),
          word,
          pack_header-eq_ok x (valid h),
          e,
        )
        (ground arith)

build_ipv4_header-Checked :
    (x : HeaderArgs) (checksum : Option ℕ)
    → x.checksum ≡ checksum
    → IsChecked x
    → IsIpAddr x.src_ip
    → IsIpAddr x.dst_ip
    → x.flags ≤ 0xffff
    → HeaderResult x (build_ipv4_header x)
build_ipv4_header-Checked x none e v s d h =
    let (header, same, size, verifies, (c, parsed)) =
      parse_ipv4_header-build_ipv4_header x [] (valid x v s d h) e in
    rw same (
      built header c v h size (inl (e, verifies))
        (ap parse_ipv4_header (sym (append-nil header)) ∙ parsed))
build_ipv4_header-Checked x (some given) e v s d h = elim (small_or_wide given) [
  | inl small ↦
      let (header, same, size, parsed) =
        parse_ipv4_header-build_checksum x given [] (valid x v s d h) small e in
      rw same (
        built header given v h size (inr e)
          (ap parse_ipv4_header (sym (append-nil header)) ∙ parsed))
  | inr wide ↦ rw (wide_checksum x v s d given h e wide) (bad_checksum given v h e wide)
]

-- Between two valid addresses and whatever the other arguments are, `build_ipv4_header` raises
-- `ValueError` if a checked field is out of its range or misaligned, `struct.error` if these are right
-- and the flags word is beyond 16 bits, `ValueError` if a given checksum is beyond 16 bits, and
-- otherwise returns 20 bytes that `parse_ipv4_header` reads back, with the given checksum or one that
-- verifies to 0.
pub build_ipv4_header-HeaderResult :
    (x : HeaderArgs) → IsIpAddr x.src_ip → IsIpAddr x.dst_ip → HeaderResult x (build_ipv4_header x)
build_ipv4_header-HeaderResult x s d = elim (OutOfRange-or_IsChecked x) [
  | inl out ↦ rw (build_ipv4_header_rejects x out) (refused out)
  | inr v ↦ elim (small_or_wide x.flags) [
    | inl h ↦ build_ipv4_header-Checked x x.checksum refl v s d h
    | inr wide ↦ rw (wide_flags x v s d wide) (unpackable v wide)
  ]
]
