-- ===== src/Http/Request/Leave.antt =====
-- A state that loops on some classes and is left by one.
use ws_pi.Base.{◌≡◌, ◌⊎◌, inl, inr, refl, sym, ◌∙◌, ap, arith, List, [], ◌∷◌, ◌++◌}
use ws_pi.Base.{Bool, true, false, ◌&&◌, ◌||◌}
use ws_pi.Http.{State, CharClass, table, row, state_index, s_done, s_error}
use ws_pi.Http.Run.{step, run}
use ws_pi.Http.Cells.{is_state, is_class, is_state-eq, is_class-eq, every_class, class-true}
use ws_pi.Http.Request.{Only}

-- The row of `st`: the class `k` leads to `next`, the classes of `inside` keep the state, and every
-- other class is an error.
abbrev cell_fits : State → State → CharClass → (CharClass → Bool) → CharClass → Bool
cell_fits st next k inside c =
    (is_class c k && is_state (step st c) next)
    || ((inside c && is_state (step st c) st) || is_state (step st c) s_error)

abbrev pub RowFits : State → State → CharClass → (CharClass → Bool) → Type 0
RowFits st next k inside =
    (every_class (cell_fits st next k inside) ≡ true) × (is_state st s_done ≡ false)

abbrev error_stays : CharClass → Bool
error_stays c = is_state (step s_error c) s_error

error_row : every_class error_stays ≡ true
unfolding table row
error_row = refl

pub run-s_error : (cs : List CharClass) → run s_error cs ≡ s_error
unfolding run
run-s_error [] = refl
run-s_error (c ∷ cs) =
    let stays : step s_error c ≡ s_error =
      is_state-eq (step s_error c) s_error (class-true error_stays error_row c) in
    rw stays (run-s_error cs)

pub not_accepted :
    {P : Type 0} (s : State) (cs : List CharClass) → s ≡ s_error → run s cs ≡ s_done → P
not_accepted s cs e h =
    let bad : s_error ≡ s_done = sym (run-s_error cs) ∙ (ap (λ t. run t cs) (sym e) ∙ h) in
    let apart : state_index s_error ≡ state_index s_done = ap state_index bad in
    absurd (omega arith)

either : (a b : Bool) → a || b ≡ true → (a ≡ true) ⊎ (b ≡ true)
either true b h = inl refl
either false b h = inr h

both : (a b : Bool) → a && b ≡ true → (a ≡ true) × (b ≡ true)
both true b h = (refl, h)
both false b h = cc

module _ (st next : State) (k : CharClass) (inside : CharClass → Bool)
    (fits : RowFits st next k inside) where
  -- What an accepted text looks like from here.
  abbrev Left : List CharClass → Type 0
  Left cs =
      (pre rest : List CharClass) × Only inside pre
      × (cs ≡ pre ++ (k ∷ rest))
      × (run next rest ≡ s_done)

  Left-cons : (c : CharClass) (cs : List CharClass) → inside c ≡ true → Left cs → Left (c ∷ cs)
  Left-cons c cs i (pre, rest, only, spells, accepted) =
      (c ∷ pre, rest, (i, only), ap (λ t. c ∷ t) spells, accepted)

  Left-exit :
      (c : CharClass) (cs : List CharClass)
      → c ≡ k
      → step st c ≡ next
      → run (step st c) cs ≡ s_done
      → Left (c ∷ cs)
  Left-exit c cs e to h = ([], cs, tt, ap (λ d. d ∷ cs) e, sym (ap (λ t. run t cs) to) ∙ h)

  pub leave : (cs : List CharClass) → run st cs ≡ s_done → Left cs
  unfolding run
  leave [] h =
      let same : state_index st ≡ state_index s_done = ap state_index h in
      absurd (ground (arith, fits.1, same))
  leave (c ∷ cs) h =
      let cell = class-true (cell_fits st next k inside) fits.0 c in
      elim (either (is_class c k && is_state (step st c) next) _ cell) [
        | inl exit ↦
            let (here, to) = both (is_class c k) _ exit in
            Left-exit c cs (is_class-eq c k here) (is_state-eq _ _ to) h
        | inr more ↦ elim (either (inside c && is_state (step st c) st) _ more) [
          | inl loop ↦
              let (i, stays) = both (inside c) _ loop in
              let back : step st c ≡ st = is_state-eq _ _ stays in
              Left-cons c cs i (leave cs (sym (ap (λ t. run t cs) back) ∙ h))
          | inr wrong ↦ not_accepted (step st c) cs (is_state-eq _ _ wrong) h
        ]
      ]

-- A state that one class leaves and every other spoils.
pub pass :
    (st next : State) (k : CharClass)
    → RowFits st next k (λ _. false)
    → (cs : List CharClass) → run st cs ≡ s_done
    → (rest : List CharClass) × (cs ≡ k ∷ rest) × (run next rest ≡ s_done)
pass st next k fits cs h = go (leave st next k (λ _. false) fits cs h)
  where
    go :
        (pre rest : List CharClass) × Only (λ _. false) pre
          × (cs ≡ pre ++ (k ∷ rest))
          × (run next rest ≡ s_done)
        → (rest : List CharClass) × (cs ≡ k ∷ rest) × (run next rest ≡ s_done)
    go ([], rest, only, spells, accepted) = (rest, spells, accepted)
    go (p ∷ pre, rest, only, spells, accepted) = absurd (ground (arith, only.0))
