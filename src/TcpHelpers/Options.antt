-- ===== src/TcpHelpers/Options.antt =====
-- hw_test/tcp_helpers.py: the builders of TCP options.
use ws_pi.Base.{
  ℕ, zero, suc, ◌+◌, ◌*◌, ◌%◌, List, [], ◌∷◌, ◌++◌, Bool, ◌&&◌, length, leb, ◌==◌, if◌then◌else◌,
}
use ws_pi.Base.{Result, ok, assertion_error, guard, ◌>>=◌, ◌>>◌}
use ws_pi.Base.Bytes.{Bytes, pack_u8, pack_be16, pack_be32}

unfoldable pub opt_mss : ℕ → Result Bytes
unfolding pack_be16
opt_mss mss = do m ← pack_be16 mss; ok (2 ∷ 4 ∷ m)

unfoldable pub opt_wscale : ℕ → Result Bytes
unfolding pack_u8
opt_wscale shift = do s ← pack_u8 shift; ok (1 ∷ 3 ∷ 3 ∷ s)

abbrev pub opt_sack_permitted : Bytes
opt_sack_permitted = 1 ∷ 1 ∷ 4 ∷ 2 ∷ []

unfoldable pub opt_timestamps : ℕ → ℕ → Result Bytes
unfolding pack_be32
opt_timestamps tsval tsecr = do
  v ← pack_be32 tsval
  e ← pack_be32 tsecr
  ok (1 ∷ 1 ∷ 8 ∷ 10 ∷ (v ++ e))

-- `for left, right in blocks: data += struct.pack('!II', left, right)`
unfoldable pub pack_blocks : List (ℕ × ℕ) → Result Bytes
unfolding pack_be32
pack_blocks [] = ok []
pack_blocks ((left, right) ∷ blocks) = do
  l ← pack_be32 left
  r ← pack_be32 right
  rest ← pack_blocks blocks
  ok (l ++ (r ++ rest))

unfoldable pub opt_sack_blocks : List (ℕ × ℕ) → Result Bytes
unfolding pack_blocks
opt_sack_blocks blocks = do
  let n = length blocks
  guard (leb 1 n && leb n 4) assertion_error
  packed ← pack_blocks blocks
  ok (1 ∷ 1 ∷ 5 ∷ (2 + 8 * n) ∷ packed)

-- `while len(opts) % 4: opts += b'\x00'`, in at most `fuel` rounds.
unfoldable pub pad_to_four : ℕ → Bytes → Bytes
pad_to_four zero opts = opts
pad_to_four (suc fuel) opts =
    let rest = pad_to_four fuel (opts ++ (0 ∷ [])) in if length opts % 4 == 0 then opts else rest

unfoldable pub syn_options : ℕ → ℕ → Bool → Result Bytes
unfolding opt_mss opt_wscale pad_to_four
syn_options mss wscale sack_permitted = do
  m ← opt_mss mss
  w ← opt_wscale wscale
  let opts = m ++ (if sack_permitted then w ++ opt_sack_permitted else w)
  ok (pad_to_four 3 opts)
