-- ===== src/Tcp/Sum.antt =====
-- scripts/tcp_oracle.py: the TCP checksum over little-endian halfwords, as the board's assembly sums.
use ws_pi.Base.{ℕ, ◌+◌, ◌-◌, ◌*◌, ◌/◌, ◌%◌, ◌^◌, [], ◌∷◌, length, drop, slice, leb}
use ws_pi.Base.{bit_or, Result, ok, struct_error, guard, ◌>>◌}
use ws_pi.Base.Bytes.{Bytes, le16_at}
use ws_pi.Checksum.{fold}

-- The loop over the segment: little-endian halfwords, then a last odd byte as it is.
unfoldable pub sum_halfwords : Bytes → ℕ
sum_halfwords [] = 0
sum_halfwords (a ∷ []) = a
sum_halfwords (a ∷ b ∷ rest) = a + b * 256 + sum_halfwords rest

-- `((tcp_len & 0xFF) << 8) | ((tcp_len >> 8) & 0xFF)`
unfoldable pub tcp_len_nbo : ℕ → ℕ
tcp_len_nbo tcp_len = bit_or (tcp_len % 256 * 2 ^ 8) (tcp_len / 2 ^ 8 % 256)

-- The accumulator before the carries are folded.
unfoldable pub accumulated : Bytes → Bytes → Bytes → ℕ
unfolding sum_halfwords tcp_len_nbo
accumulated ip_src ip_dst tcp_data =
    le16_at ip_src
    + le16_at (drop 2 ip_src)
    + le16_at ip_dst
    + le16_at (drop 2 ip_dst)
    + 0x0600
    + tcp_len_nbo (length tcp_data)
    + sum_halfwords tcp_data

-- `unpack_from` needs the four bytes of both addresses.
unfoldable pub tcp_checksum_calc : Bytes → Result ℕ
unfolding accumulated
tcp_checksum_calc frame = do
  let ip_src = slice (14 + 12) (14 + 16) frame
  let ip_dst = slice (14 + 16) (14 + 20) frame
  guard (leb 4 (length ip_src)) struct_error
  guard (leb 4 (length ip_dst)) struct_error
  let tcp_data = drop (14 + 20) frame
  ok (0xffff - fold (accumulated ip_src ip_dst tcp_data) % 2 ^ 16)
