-- ===== src/Udp/Checked.antt =====
-- The UDP checksum: never 0, and accepted by a receiver that sums pseudo-header and segment.
use ws_pi.Base.{ℕ, ◌+◌, ◌%◌, ◌≤◌, ◌≡◌, ◌≢◌, refl, arith, none, some, ◌∷◌, ◌++◌}
use ws_pi.Base.{length, ◌==◌, if◌then◌else◌, ok}
use ws_pi.Base.Bytes.{Bytes, be16, octets, IpAddr, IsIpAddr, inet_aton-eq_ok}
use ws_pi.Checksum.{ip_checksum}
use ws_pi.Checksum.Verify.{ip_checksum_lem, ip_checksum-lt, sum_words-word}
use ws_pi.Udp.{computed_checksum, build_udp_header}

abbrev pub segment_of : ℕ → ℕ → ℕ → ℕ → Bytes → Bytes
segment_of sp dp len c payload = be16 sp ++ (be16 dp ++ (be16 len ++ (be16 c ++ payload)))

abbrev pub pseudo_of : IpAddr → IpAddr → ℕ → Bytes
pseudo_of src dst len = octets src ++ (octets dst ++ (0 ∷ 17 ∷ be16 len))

abbrev not_zero : ℕ → ℕ
not_zero c = if c == 0 then 0xffff else c

computed_checksum-eq_ok :
    (sp dp len : ℕ) (payload : Bytes) (src dst : IpAddr)
    → sp ≤ 0xffff
    → dp ≤ 0xffff
    → len ≤ 0xffff
    → IsIpAddr src
    → IsIpAddr dst
    → computed_checksum sp dp len payload src dst
      ≡ ok (not_zero (ip_checksum (pseudo_of src dst len ++ segment_of sp dp len 0 payload)))
unfolding computed_checksum
computed_checksum-eq_ok sp dp len payload src dst h1 h2 h3 hs hd =
    rw (inet_aton-eq_ok src hs, inet_aton-eq_ok dst hd) (ground arith)

-- 0xFFFF verifies wherever 0 does.
not_zero_verifies :
    (pre post : Bytes)
    → length pre % 2 ≡ 0
    → ip_checksum (pre ++ (be16 (not_zero (ip_checksum (pre ++ (be16 0 ++ post)))) ++ post)) ≡ 0
not_zero_verifies pre post h =
    let c = not_zero (ip_checksum (pre ++ (be16 0 ++ post))) in
    ground (
      arith,
      ip_checksum_lem (pre ++ (be16 0 ++ post)),
      ip_checksum_lem (pre ++ (be16 c ++ post)),
      sum_words-word pre post c h (ground (arith, ip_checksum-lt (pre ++ (be16 0 ++ post)))),
    )

not_zero-ne_zero : (c : ℕ) → not_zero c ≢ 0
not_zero-ne_zero c = ground arith

-- For 16-bit ports, a segment of at most 65535 bytes and two valid addresses, `build_udp_header` with
-- no given checksum returns the 8 header bytes and the payload; the checksum field is not 0, and the
-- pseudo-header and the segment together verify to 0.
pub build_udp_header_verifies :
    (sp dp : ℕ) (payload : Bytes) (src dst : IpAddr)
    → sp ≤ 0xffff
    → dp ≤ 0xffff
    → 8 + length payload ≤ 0xffff
    → IsIpAddr src
    → IsIpAddr dst
    → (c : ℕ) × (build_udp_header sp dp payload none (some src) (some dst)
        ≡ ok (segment_of sp dp (8 + length payload) c payload))
      × (c ≢ 0)
      × (c ≤ 0xffff)
      × (ip_checksum (
            pseudo_of src dst (8 + length payload)
            ++ segment_of sp dp (8 + length payload) c payload)
          ≡ 0)
unfolding build_udp_header
build_udp_header_verifies sp dp payload src dst h1 h2 h3 hs hd =
    let len = 8 + length payload in
    let summed = pseudo_of src dst len ++ segment_of sp dp len 0 payload in
    let fits : not_zero (ip_checksum summed) ≤ 0xffff = ground (arith, ip_checksum-lt summed) in
    (
      not_zero (ip_checksum summed),
      rw (computed_checksum-eq_ok sp dp len payload src dst h1 h2 h3 hs hd) (ground arith),
      not_zero-ne_zero (ip_checksum summed),
      fits,
      not_zero_verifies (pseudo_of src dst len ++ (be16 sp ++ (be16 dp ++ be16 len))) payload refl,
    )
