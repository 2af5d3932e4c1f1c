-- ===== src/Reasm/FrameLaws.antt =====
-- The frame of a reassembly vector, as a receiver reads it.
use ws_pi.Base.{ℕ, ◌+◌, ◌-◌, ◌*◌, ◌/◌, ◌%◌, ◌^◌, ◌≤◌, ◌≡◌, refl, ◌∙◌, arith, ◌∷◌, ◌++◌}
use ws_pi.Base.{Bool-cases, inl, inr, length, slice, drop, ◌==◌}
use ws_pi.Base.{if◌then◌else◌, ok, zero, suc}
use ws_pi.Base.Bits.{bit_or_comm, bit_or_disjoint}
use ws_pi.Base.Bytes.{Bytes}
use ws_pi.Checksum.{ip_checksum}
use ws_pi.Checksum.Verify.{ip_checksum-lt, ip_checksum-splice}
use ws_pi.Ip.{HeaderArgs, header_args, splice_checksum, parse_ipv4_header, ip_flag_mf}
use ws_pi.Ip.Header.{
  IsValidArgs, header_of, built_header, front, addresses, frag_word, low_thirteen,
}
use ws_pi.Ip.Header.{pack_header-eq_ok, parse_ipv4_header-header_of}
use ws_pi.Ip.RoundTrip.{fields_of}
use ws_pi.Reasm.Vector.{
  our_ip, peer_ip, our_mac, peer_mac, pattern, flags_frag, build_fragment_frame,
}

-- The header's fields.
abbrev pub vector_args : ℕ → ℕ → ℕ → HeaderArgs
vector_args frag_offset payload_len mf_flag =
    let args = header_args peer_ip our_ip 1 payload_len in
    record args {
      ident = 0xabcd;
      flags = if mf_flag == 0 then 0 else ip_flag_mf;
      frag_off = frag_offset;
    }

length-pattern : (frag_offset n : ℕ) → length (pattern frag_offset n) ≡ n
unfolding pattern
length-pattern frag_offset zero = refl
length-pattern frag_offset (suc n) = omega (arith, length-pattern (frag_offset + 1) n)

flags_frag-sum :
    (frag_offset payload_len mf_flag : ℕ)
    → frag_offset ≤ 0x1fff * 8
    → flags_frag frag_offset mf_flag ≡ frag_word (vector_args frag_offset payload_len mf_flag)
flags_frag-sum off len mf h = elim (Bool-cases (mf == 0)) [
  | inl last ↦ rw (last, low_thirteen) (omega arith)
  | inr more ↦
      rw (more, low_thirteen)
        (bit_or_comm (off / 2 ^ 3 % 2 ^ 13) (1 * 2 ^ 13)
          ∙ bit_or_disjoint 13 1 (off / 2 ^ 3 % 2 ^ 13) (omega arith)
          ∙ omega arith)
]

-- For an offset that is a multiple of 8 and fits its field and a payload that fits a datagram,
-- `build_fragment_frame` returns a frame whose IPv4 header verifies to 0 and reads back with the offset
-- and the More Fragments flag, and which carries the pattern of that offset and length.
pub build_fragment_frame-pattern :
    (frag_offset payload_len mf_flag : ℕ)
    → frag_offset ≤ 0x1fff * 8
    → frag_offset % 8 ≡ 0
    → payload_len ≤ 0xffff - 20
    → (frame : Bytes) × (c : ℕ) × (build_fragment_frame frag_offset payload_len mf_flag ≡ ok frame)
      × (length frame ≡ 34 + payload_len)
      × (ip_checksum (slice 14 34 frame) ≡ 0)
      × (parse_ipv4_header (drop 14 frame)
          ≡ ok (fields_of (vector_args frag_offset payload_len mf_flag) c))
      × (drop 34 frame ≡ pattern frag_offset payload_len)
unfolding build_fragment_frame splice_checksum
build_fragment_frame-pattern off len mf h a l =
    let x = vector_args off len mf in
    let v : IsValidArgs x = ground arith in
    let c = ip_checksum (header_of x 0) in
    let total : 20 + len ≡ len + 20 = omega arith in
    (
      peer_mac ++ (our_mac ++ (0x08 ∷ 0x00 ∷ (built_header x ++ pattern off len))),
      c,
      rw (total, flags_frag-sum off len mf h, pack_header-eq_ok x v),
      omega (arith, length-pattern off len),
      ip_checksum-splice (front x) (addresses x) refl,
      parse_ipv4_header-header_of x v c (pattern off len)
          (ground (arith, ip_checksum-lt (header_of x 0))),
      refl,
    )
