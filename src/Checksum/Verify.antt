-- ===== src/Checksum/Verify.antt =====
-- What a receiver that sums the whole header, checksum included, learns from `ip_checksum`.
use ws_pi.Base.{ℕ, ◌+◌, ◌-◌, ◌%◌, ◌^◌, ◌<◌, ◌≡◌, ◌≢◌, ◌↔◌, arith}
use ws_pi.Base.{[], ◌∷◌, ◌++◌, length}
use ws_pi.Base.Bytes.{Bytes, be16}
use ws_pi.Checksum.{sum_words, ip_checksum}
use ws_pi.Checksum.Fold.{fold_lem, end_around}

pub ip_checksum_lem : (bytes : Bytes) → ip_checksum bytes ≡ 0xffff - end_around (sum_words bytes)
unfolding ip_checksum
ip_checksum_lem bytes = rw (fold_lem (sum_words bytes)) (ground arith)

pub ip_checksum-lt : (bytes : Bytes) → ip_checksum bytes < 2 ^ 16
ip_checksum-lt bytes = ground (arith, ip_checksum_lem bytes)

-- A byte string verifies exactly if its word sum is a positive multiple of 65535.
pub ip_checksum-eq-zero :
    (bytes : Bytes)
    → (ip_checksum bytes ≡ 0) ↔ ((0 < sum_words bytes) × (sum_words bytes % 65535 ≡ 0))
ip_checksum-eq-zero bytes = ground (arith, ip_checksum_lem bytes)

pub sum_words-append :
    (xs ys : Bytes) → length xs % 2 ≡ 0 → sum_words (xs ++ ys) ≡ sum_words xs + sum_words ys
unfolding sum_words
sum_words-append [] ys h = omega arith
sum_words-append (a ∷ []) ys h = absurd (omega arith)
sum_words-append (a ∷ b ∷ xs) ys h = omega (arith, sum_words-append xs ys (omega arith))

pub sum_words-word :
    (pre post : Bytes) (w : ℕ)
    → length pre % 2 ≡ 0
    → w < 2 ^ 16
    → sum_words (pre ++ (be16 w ++ post)) ≡ sum_words (pre ++ (be16 0 ++ post)) + w
unfolding sum_words
sum_words-word pre post w h hw =
    omega (arith, sum_words-append pre (be16 w ++ post) h, sum_words-append pre (be16 0 ++ post) h)

-- The checksum of bytes whose checksum field is zero, written into that field at any even offset,
-- makes the whole verify to 0.
pub ip_checksum-splice :
    (pre post : Bytes)
    → length pre % 2 ≡ 0
    → ip_checksum (pre ++ (be16 (ip_checksum (pre ++ (be16 0 ++ post))) ++ post)) ≡ 0
ip_checksum-splice pre post h =
    let whole = pre ++ (be16 0 ++ post) in
    let c = ip_checksum whole in
    ground (
      arith,
      ip_checksum_lem whole,
      ip_checksum_lem (pre ++ (be16 c ++ post)),
      sum_words-word pre post c h (ip_checksum-lt whole),
    )

-- In bytes that verify, replacing the 16-bit word at an even offset by another one is noticed, unless
-- the two words agree modulo 65535 (they are 0x0000 and 0xFFFF, or the same).
pub ip_checksum-damage :
    (pre post : Bytes) (w w' : ℕ)
    → length pre % 2 ≡ 0
    → w < 2 ^ 16
    → w' < 2 ^ 16
    → w % 65535 ≢ w' % 65535
    → ip_checksum (pre ++ (be16 w ++ post)) ≡ 0
    → ip_checksum (pre ++ (be16 w' ++ post)) ≢ 0
ip_checksum-damage pre post w w' h hw hw' ne e = ground (
  arith,
  ip_checksum_lem (pre ++ (be16 w ++ post)),
  ip_checksum_lem (pre ++ (be16 w' ++ post)),
  sum_words-word pre post w h hw,
  sum_words-word pre post w' h hw',
)
