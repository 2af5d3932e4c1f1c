-- ===== src/Icmp.antt =====
-- hw_test/ip_frames.py: the ICMP messages.
pub mod RoundTrip
use ws_pi.Base.{ℕ, ◌+◌, [], ◌∷◌, ◌++◌, Bool, true, false, not, length, take, drop, slice, get_or}
use ws_pi.Base.{ltb, leb, ◌==◌, if◌then◌else◌, Result, ok, err, value_error, guard, ◌>>=◌, ◌>>◌}
use ws_pi.Base.Bytes.{Bytes, pack_u8, pack_be16, be16, be16_at}
use ws_pi.Checksum.{ip_checksum}

abbrev pub icmp_echo_request : ℕ
icmp_echo_request = 8

abbrev pub icmp_hdr_len : ℕ
icmp_hdr_len = 8

-- `body[:2] + struct.pack("!H", cksum) + body[4:]`
abbrev pub splice_icmp : Bytes → ℕ → Bytes
splice_icmp body cksum = take 2 body ++ (be16 cksum ++ drop 4 body)

unfoldable pub build_icmp_echo_request : ℕ → ℕ → Bytes → Bool → Result Bytes
unfolding pack_u8 pack_be16
build_icmp_echo_request ident seq payload bad_checksum = do
  guard (leb ident 0xffff) value_error
  guard (leb seq 0xffff) value_error
  f0 ← pack_u8 icmp_echo_request
  f1 ← pack_u8 0
  f2 ← pack_be16 0
  f3 ← pack_be16 ident
  f4 ← pack_be16 seq
  let header = f0 ++ (f1 ++ (f2 ++ (f3 ++ f4)))
  let body = header ++ payload
  let cksum = if bad_checksum then 0xdead else ip_checksum body
  ok (splice_icmp body cksum)

unfoldable pub build_icmp_raw : ℕ → ℕ → Bytes → Bytes → Result Bytes
unfolding pack_u8 pack_be16
build_icmp_raw icmp_type icmp_code rest_of_header payload = do
  guard (leb icmp_type 0xff) value_error
  guard (leb icmp_code 0xff) value_error
  guard (length rest_of_header == 4) value_error
  f0 ← pack_u8 icmp_type
  f1 ← pack_u8 icmp_code
  f2 ← pack_be16 0
  let header = f0 ++ (f1 ++ (f2 ++ rest_of_header))
  let body = header ++ payload
  ok (splice_icmp body (ip_checksum body))

pub record IcmpMessage : Type 0 where
  pub kind : ℕ  -- the key "type"
  pub code : ℕ
  pub checksum : ℕ
  pub ident : ℕ
  pub seq : ℕ
  pub rest : Bytes
  pub payload : Bytes

unfoldable pub parse_icmp : Bytes → Result IcmpMessage
parse_icmp bytes = do
  guard (not (ltb (length bytes) icmp_hdr_len)) value_error
  ok (record {
    kind = get_or bytes 0 0;
    code = get_or bytes 1 0;
    checksum = be16_at (slice 2 4 bytes);
    ident = be16_at (slice 4 6 bytes);
    seq = be16_at (slice 6 8 bytes);
    rest = slice 4 8 bytes;
    payload = drop icmp_hdr_len bytes;
  })
