-- ===== src/Checksum/Fold.antt =====
-- The end-around fold in closed form: the residue modulo 65535, with 65535 for a positive multiple.
use ws_pi.Base.{ℕ, ◌+◌, ◌-◌, ◌/◌, ◌%◌, ◌^◌, ◌<◌, ◌≡◌, sym, ◌∙◌, arith, dec_lt}
use ws_pi.Base.{◌==◌, if◌then◌else◌}
use ws_pi.Checksum.{fold_loop, fold, fold_shrinks}
use ws_pi.Base.Order.{lt_wf}
use mathlib.Core.WellFounded.{Acc}
use mathlib.Core.Logic.{dif_pos, dif_neg}
use native.Mathlib.Bridge.{le_prop}

abbrev pub end_around : ℕ → ℕ
end_around s = if s == 0 then 0 else (s - 1) % 65535 + 1

end_around_small : (s : ℕ) → s < 2 ^ 16 → end_around s ≡ s
end_around_small s h = ground arith

end_around_step : (s : ℕ) → end_around (s % 2 ^ 16 + s / 2 ^ 16) ≡ end_around s
end_around_step s = ground arith

fold_loop_lem : (s : ℕ) (w : Acc ◌<◌ s) → fold_loop s w ≡ end_around s
unfolding fold_loop
fold_loop_lem s (Acc.intro _ smaller) = elim (dec_lt 0 (s / 2 ^ 16)) [
  | yes p ↦
      rw (dif_pos _ le_prop p)
        (fold_loop_lem (s % 2 ^ 16 + s / 2 ^ 16) (smaller _ (fold_shrinks s p)) ∙ end_around_step s)
  | no p ↦ rw (dif_neg _ p) (sym (end_around_small s (omega arith)))
]

pub fold_lem : (s : ℕ) → fold s ≡ end_around s
unfolding fold
fold_lem s = fold_loop_lem s (lt_wf.apply s)
