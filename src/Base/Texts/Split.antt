-- ===== src/Base/Texts/Split.antt =====
-- Splitting a text at a separator and joining the parts.
use ws_pi.Base.Texts.{Text, split, put_first}
use Prim.Native.Nat.{ℕ}
use mathlib.Core.Path.{◌≡◌, refl, ap, sym, ◌∙◌}
use mathlib.Core.Bool.{true, false}
use mathlib.Core.Logic.{inl, inr}
use mathlib.Core.List.{List, [], ◌∷◌, ◌++◌}
use native.Mathlib.Omega.{arith}
use ws_pi.Base.Tests.{◌==◌, Bool-cases}
use ws_pi.Base.Lists.{All}

-- `sep.join(parts)`
abbrev pub join_with : ℕ → List Text → Text
join_with sep [] = []
join_with sep (p ∷ []) = p
join_with sep (p ∷ q ∷ ps) = p ++ (sep ∷ join_with sep (q ∷ ps))

-- The separator does not occur.
abbrev pub Free : ℕ → Text → Type 0
Free sep s = All (λ c. c == sep ≡ false) s

split_nonempty : (sep : ℕ) (s : Text) → (p : Text) × (ps : List Text) × (split sep s ≡ p ∷ ps)
unfolding split
split_nonempty sep [] = ([], [], refl)
split_nonempty sep (c ∷ s) = elim (Bool-cases (c == sep)) [
  | inl here ↦ ([], split sep s, rw here)
  | inr other ↦ let (p, ps, e) = split_nonempty sep s in (c ∷ p, ps, rw (other, e))
]

join_with-put_first :
    (sep c : ℕ) (ps : List Text) → join_with sep (put_first c ps) ≡ c ∷ join_with sep ps
join_with-put_first sep c [] = refl
join_with-put_first sep c (p ∷ []) = refl
join_with-put_first sep c (p ∷ q ∷ ps) = refl

pub join_with-split : (sep : ℕ) (s : Text) → join_with sep (split sep s) ≡ s
unfolding split
join_with-split sep [] = refl
join_with-split sep (c ∷ s) = elim (Bool-cases (c == sep)) [
  | inl here ↦
      let (p, ps, e) = split_nonempty sep s in
      let same : c ≡ sep = ground (arith, here) in
      let behind : join_with sep (p ∷ ps) ≡ s =
        ap (join_with sep) (sym e) ∙ join_with-split sep s in
      rw (here, e) (ap (λ t. sep ∷ t) behind ∙ ap (λ d. d ∷ s) (sym same))
  | inr other ↦
      rw other (join_with-put_first sep c (split sep s) ∙ ap (λ t. c ∷ t) (join_with-split sep s))
]

pub split-Free : (sep : ℕ) (p : Text) → Free sep p → split sep p ≡ p ∷ []
unfolding split
split-Free sep [] h = refl
split-Free sep (c ∷ p) h = rw (h.0, split-Free sep p h.1)

pub split-append :
    (sep : ℕ) (p s : Text) → Free sep p → split sep (p ++ (sep ∷ s)) ≡ p ∷ split sep s
unfolding split
split-append sep [] s h = let here : sep == sep ≡ true = ground arith in rw here
split-append sep (c ∷ p) s h = rw (h.0, split-append sep p s h.1)

-- Two texts with the separator between them.
pub split-append_sep :
    (sep : ℕ) (s t : Text) → split sep (s ++ (sep ∷ t)) ≡ split sep s ++ split sep t
unfolding split
split-append_sep sep [] t = let here : sep == sep ≡ true = ground arith in rw here
split-append_sep sep (c ∷ s) t = elim (Bool-cases (c == sep)) [
  | inl here ↦ rw here (ap (λ ps. [] ∷ ps) (split-append_sep sep s t))
  | inr other ↦
      let (p, ps, e) = split_nonempty sep s in
      let ih : split sep (s ++ (sep ∷ t)) ≡ (p ∷ ps) ++ split sep t =
        split-append_sep sep s t ∙ ap (λ qs. qs ++ split sep t) e in
      rw (other, ih, e)
]

-- Joining parts without the separator and splitting again.
pub split-join_with :
    (sep : ℕ) (p : Text) (ps : List Text)
    → All (Free sep) (p ∷ ps)
    → split sep (join_with sep (p ∷ ps)) ≡ p ∷ ps
split-join_with sep p [] h = split-Free sep p h.0
split-join_with sep p (q ∷ ps) h =
    split-append sep p (join_with sep (q ∷ ps)) h.0
    ∙ ap (λ qs. p ∷ qs) (split-join_with sep q ps h.1)
