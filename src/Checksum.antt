-- ===== src/Checksum.antt =====
-- `ip_checksum`, the RFC 1071 checksum, which hw_test/ip_frames.py, scripts/tcp_oracle.py and
-- scripts/reasm_oracle.py each define with the same result.
pub mod Fold
pub mod Verify
use ws_pi.Base.{ℕ, ◌+◌, ◌-◌, ◌*◌, ◌/◌, ◌%◌, ◌^◌, ◌<◌, List, [], ◌∷◌, arith, dec_lt}
use ws_pi.Base.Bytes.{Bytes}
use ws_pi.Base.Order.{lt_wf}
use mathlib.Core.Logic.{dite}
use mathlib.Core.WellFounded.{Acc}

-- The sum of the big-endian words; a last odd byte is the high byte of a word.
unfoldable pub sum_words : Bytes → ℕ
sum_words [] = 0
sum_words (a ∷ []) = a * 256
sum_words (a ∷ b ∷ rest) = a * 256 + b + sum_words rest

pub fold_shrinks : (s : ℕ) → 0 < s / 2 ^ 16 → s % 2 ^ 16 + s / 2 ^ 16 < s
fold_shrinks s h = omega arith

-- `while s >> 16: s = (s & 0xFFFF) + (s >> 16)`
fold_loop : (s : ℕ) → Acc ◌<◌ s → ℕ
fold_loop s (Acc.intro _ smaller) =
    dite (dec_lt 0 (s / 2 ^ 16))
      (λ more. fold_loop (s % 2 ^ 16 + s / 2 ^ 16) (smaller _ (fold_shrinks s more))) (λ _. s)

unfoldable pub fold : ℕ → ℕ
unfolding fold_loop lt_wf dec_lt
fold s = fold_loop s (lt_wf.apply s)

-- `(~s) & 0xFFFF`
unfoldable pub ip_checksum : Bytes → ℕ
unfolding sum_words fold
ip_checksum bytes = 0xffff - fold (sum_words bytes) % 2 ^ 16
