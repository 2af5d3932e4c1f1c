-- ===== src/Icmp/RoundTrip.antt =====
-- What `parse_icmp` and a receiver's checksum test make of the ICMP messages.
use ws_pi.Base.{ℕ, ◌+◌, ◌*◌, ◌≤◌, ◌≡◌, refl, arith, [], ◌∷◌, ◌++◌, Bool, true, false}
use ws_pi.Base.{length, if◌then◌else◌, ok}
use ws_pi.Base.Bytes.{Bytes, be16}
use ws_pi.Checksum.{ip_checksum}
use ws_pi.Checksum.Verify.{ip_checksum-lt, ip_checksum-splice}
use ws_pi.Icmp.{build_icmp_echo_request, build_icmp_raw, parse_icmp, IcmpMessage}

-- A message with `c` in its checksum field.
abbrev pub message_of : ℕ → ℕ → ℕ → Bytes → Bytes
message_of kind code c tail = kind ∷ code ∷ (be16 c ++ tail)

abbrev echo_tail : ℕ → ℕ → Bytes → Bytes
echo_tail ident seq payload = be16 ident ++ (be16 seq ++ payload)

build_icmp_echo_request-eq_ok :
    (ident seq : ℕ) (payload : Bytes) (bad : Bool)
    → ident ≤ 0xffff
    → seq ≤ 0xffff
    → build_icmp_echo_request ident seq payload bad
      ≡ ok (
          message_of 8 0
            (if bad then 0xdead else ip_checksum (message_of 8 0 0 (echo_tail ident seq payload)))
            (echo_tail ident seq payload))
unfolding build_icmp_echo_request
build_icmp_echo_request-eq_ok ident seq payload true hi hs = ground arith
build_icmp_echo_request-eq_ok ident seq payload false hi hs = ground arith

parse_icmp-message_of :
    (kind code c ident seq : ℕ) (payload : Bytes)
    → c ≤ 0xffff
    → ident ≤ 0xffff
    → seq ≤ 0xffff
    → parse_icmp (message_of kind code c (echo_tail ident seq payload))
      ≡ ok (record {
        kind = kind;
        code = code;
        checksum = c;
        ident = ident;
        seq = seq;
        rest = be16 ident ++ be16 seq;
        payload = payload;
      })
unfolding parse_icmp
parse_icmp-message_of kind code c ident seq payload hc hi hs = ground arith

-- For a 16-bit identifier and sequence number, `build_icmp_echo_request` without `bad_checksum`
-- returns a message that verifies to 0 and from which `parse_icmp` reads back the type 8, the code 0,
-- the identifier, the sequence number and the payload.
pub parse_icmp-build_icmp_echo_request :
    (ident seq : ℕ) (payload : Bytes)
    → ident ≤ 0xffff
    → seq ≤ 0xffff
    → (msg : Bytes) × (c : ℕ) × (build_icmp_echo_request ident seq payload false ≡ ok msg)
      × (ip_checksum msg ≡ 0)
      × (parse_icmp msg
          ≡ ok (record {
            kind = 8;
            code = 0;
            checksum = c;
            ident = ident;
            seq = seq;
            rest = be16 ident ++ be16 seq;
            payload = payload;
          }))
parse_icmp-build_icmp_echo_request ident seq payload hi hs =
    let tail = echo_tail ident seq payload in
    let c = ip_checksum (message_of 8 0 0 tail) in
    (
      message_of 8 0 c tail,
      c,
      build_icmp_echo_request-eq_ok ident seq payload false hi hs,
      ip_checksum-splice (8 ∷ 0 ∷ []) tail refl,
      parse_icmp-message_of 8 0 c ident seq payload
          (ground (arith, ip_checksum-lt (message_of 8 0 0 tail))) hi hs,
    )

-- `rest_of_header` has four bytes.
raw_eq_ok :
    (kind code r0 r1 r2 r3 : ℕ) (payload : Bytes)
    → kind ≤ 0xff
    → code ≤ 0xff
    → build_icmp_raw kind code (r0 ∷ r1 ∷ r2 ∷ r3 ∷ []) payload
      ≡ ok (
          message_of kind code
            (ip_checksum (message_of kind code 0 (r0 ∷ r1 ∷ r2 ∷ r3 ∷ payload)))
            (r0 ∷ r1 ∷ r2 ∷ r3 ∷ payload))
unfolding build_icmp_raw
raw_eq_ok kind code r0 r1 r2 r3 payload hk hc = ground arith

parse_raw :
    (kind code c r0 r1 r2 r3 : ℕ) (payload : Bytes)
    → c ≤ 0xffff
    → parse_icmp (message_of kind code c (r0 ∷ r1 ∷ r2 ∷ r3 ∷ payload))
      ≡ ok (record {
        kind = kind;
        code = code;
        checksum = c;
        ident = r0 * 256 + r1;
        seq = r2 * 256 + r3;
        rest = r0 ∷ r1 ∷ r2 ∷ r3 ∷ [];
        payload = payload;
      })
unfolding parse_icmp
parse_raw kind code c r0 r1 r2 r3 payload hc = ground arith

-- For a type and a code of one byte, `build_icmp_raw` over four further header bytes returns a message
-- that verifies to 0 and from which `parse_icmp` reads back the type, the code, the four bytes and
-- the payload.
pub parse_icmp-build_icmp_raw :
    (kind code r0 r1 r2 r3 : ℕ) (payload : Bytes)
    → kind ≤ 0xff
    → code ≤ 0xff
    → (msg : Bytes) × (m : IcmpMessage) × (build_icmp_raw kind code (r0 ∷ r1 ∷ r2 ∷ r3 ∷ []) payload
        ≡ ok msg)
      × (ip_checksum msg ≡ 0)
      × (parse_icmp msg ≡ ok m)
      × (m.kind ≡ kind)
      × (m.code ≡ code)
      × (m.rest ≡ r0 ∷ r1 ∷ r2 ∷ r3 ∷ [])
      × (m.payload ≡ payload)
parse_icmp-build_icmp_raw kind code r0 r1 r2 r3 payload hk hc =
    let tail = r0 ∷ r1 ∷ r2 ∷ r3 ∷ payload in
    let c = ip_checksum (message_of kind code 0 tail) in
    let fits : c ≤ 0xffff = ground (arith, ip_checksum-lt (message_of kind code 0 tail)) in
    (
      message_of kind code c tail,
      _,
      raw_eq_ok kind code r0 r1 r2 r3 payload hk hc,
      ip_checksum-splice (kind ∷ code ∷ []) tail refl,
      parse_raw kind code c r0 r1 r2 r3 payload fits,
      refl,
      refl,
      refl,
      refl,
    )

pub length-build_icmp_echo_request :
    (ident seq : ℕ) (payload : Bytes) {msg : Bytes}
    → ident ≤ 0xffff
    → seq ≤ 0xffff
    → build_icmp_echo_request ident seq payload false ≡ ok msg
    → length msg ≡ 8 + length payload
length-build_icmp_echo_request ident seq payload hi hs e =
    ground (arith, build_icmp_echo_request-eq_ok ident seq payload false hi hs)
