-- ===== src/Tcp/SumLaws.antt =====
-- The little-endian TCP checksum against the big-endian Internet checksum of RFC 793.
use ws_pi.Base.{ℕ, suc, ◌+◌, ◌-◌, ◌*◌, ◌/◌, ◌%◌, ◌^◌, ◌≤◌, ◌<◌, ◌≡◌, refl, ap, arith, [], ◌∷◌, ◌++◌}
use ws_pi.Base.{length, drop, ok}
use ws_pi.Base.Bits.{bit_or_disjoint}
use ws_pi.Base.Bytes.{Bytes, be16, octets, IpAddr}
use ws_pi.Checksum.{sum_words, fold, ip_checksum}
use ws_pi.Checksum.Fold.{fold_lem, end_around}
use ws_pi.Checksum.Verify.{ip_checksum_lem}
use ws_pi.Tcp.Sum.{sum_halfwords, tcp_len_nbo, accumulated, tcp_checksum_calc}

-- The two bytes of a 16-bit number in the other order.
abbrev pub swap_bytes : ℕ → ℕ
swap_bytes x = x % 256 * 256 + x / 256

-- The pseudo-header of RFC 793.
abbrev pub tcp_pseudo : IpAddr → IpAddr → ℕ → Bytes
tcp_pseudo src dst len = octets src ++ (octets dst ++ (0 ∷ 6 ∷ be16 len))

-- The little-endian sum is 256 times the big-endian one, modulo 65535.
halfwords-words : (bytes : Bytes) → sum_halfwords bytes % 65535 ≡ 256 * sum_words bytes % 65535
unfolding sum_halfwords sum_words
halfwords-words [] = refl
halfwords-words (a ∷ []) = omega arith
halfwords-words (a ∷ b ∷ rest) = omega (arith, halfwords-words rest)

end_around-swap :
    (le be : ℕ)
    → le % 65535 ≡ 256 * be % 65535
    → 0 < le
    → 0 < be
    → end_around le ≡ swap_bytes (end_around be)
end_around-swap le be h hl hb = ground arith

swap_complement : (r : ℕ) → r ≤ 0xffff → 0xffff - swap_bytes r ≡ swap_bytes (0xffff - r)
swap_complement r h = omega arith

drop_past : (front xs : Bytes) (k n : ℕ) → length front + k ≡ n → drop n (front ++ xs) ≡ drop k xs
drop_past [] xs k n h = ap (λ m. drop m xs) (omega arith)
drop_past (f ∷ front) xs k n h =
    let e : n ≡ suc (n - 1) = omega arith in rw e (drop_past front xs k (n - 1) (omega arith))

low_byte_first : (len : ℕ) → len ≤ 0xffff → tcp_len_nbo len ≡ len % 256 * 256 + len / 256
unfolding tcp_len_nbo
low_byte_first len h =
    omega (arith, bit_or_disjoint 8 (len % 256) (len / 2 ^ 8 % 256) (omega arith))

module _ (src dst : IpAddr) (segment : Bytes) (fits : length segment ≤ 0xffff) where
  abbrev whole : Bytes
  whole = tcp_pseudo src dst (length segment) ++ segment

  -- What the code accumulates is the big-endian sum of the whole, with its bytes swapped.
  accumulated-whole :
      (accumulated (octets src) (octets dst) segment % 65535 ≡ 256 * sum_words whole % 65535)
      × (0 < accumulated (octets src) (octets dst) segment)
      × (0 < sum_words whole)
  unfolding accumulated sum_words
  accumulated-whole =
      let len = low_byte_first (length segment) fits in
      let parts = halfwords-words segment in (omega (arith, len, parts), omega arith, omega arith)

  folded-whole :
      0xffff - fold (accumulated (octets src) (octets dst) segment) % 2 ^ 16
      ≡ swap_bytes (ip_checksum whole)
  folded-whole =
      let (same, some_le, some_be) = accumulated-whole in
      let acc = accumulated (octets src) (octets dst) segment in
      let swapped : end_around acc ≡ swap_bytes (end_around (sum_words whole)) =
        end_around-swap acc (sum_words whole) same some_le some_be in
      let small : end_around (sum_words whole) ≤ 0xffff = ground arith in
      let small' : end_around acc ≤ 0xffff = ground arith in
      omega (
        arith,
        fold_lem acc,
        ip_checksum_lem whole,
        swapped,
        small,
        small',
        swap_complement (end_around (sum_words whole)) small,
      )

-- On a frame with 26 bytes before two addresses and a segment of at most 65535 bytes,
-- `tcp_checksum_calc` returns the Internet checksum of the RFC 793 pseudo-header and the segment, with
-- its two bytes swapped.
pub tcp_checksum_calc-ip_checksum :
    (front : Bytes) (src dst : IpAddr) (segment : Bytes)
    → length front ≡ 26
    → length segment ≤ 0xffff
    → tcp_checksum_calc (front ++ (octets src ++ (octets dst ++ segment)))
      ≡ ok (swap_bytes (ip_checksum (tcp_pseudo src dst (length segment) ++ segment)))
unfolding tcp_checksum_calc
tcp_checksum_calc-ip_checksum front src dst segment h hl =
    let rest = octets src ++ (octets dst ++ segment) in
    let at26 : drop 26 (front ++ rest) ≡ rest = drop_past front rest 0 26 (omega arith) in
    let at30 : drop 30 (front ++ rest) ≡ octets dst ++ segment =
      drop_past front rest 4 30 (omega arith) in
    let at34 : drop 34 (front ++ rest) ≡ segment = drop_past front rest 8 34 (omega arith) in
    rw (at26, at30, at34) (ap ok (folded-whole src dst segment hl))
