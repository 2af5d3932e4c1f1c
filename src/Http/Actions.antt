-- ===== src/Http/Actions.antt =====
-- The actions that the automaton reports while it reads a request.
use ws_pi.Base.{ℕ, suc, ◌+◌, ◌≡◌, ◌⊎◌, inl, inr, refl, ap, arith, List, [], ◌∷◌}
use ws_pi.Base.{Bool, true, false, not, leb, ◌||◌, ◌==◌, if◌then◌else◌}
use ws_pi.Http.{State, CharClass, table, row, s_method, s_hdr_nm, s_done, s_error, state_index}
use ws_pi.Http.Run.{action, step, run, actions}
use ws_pi.Http.Cells.{is_state, is_state-eq, every_class, class-true, every_state, state-true}
use ws_pi.Http.Request.Leave.{not_accepted}

-- How often an action is reported.
unfoldable pub count : ℕ → List ℕ → ℕ
count k [] = 0
count k (a ∷ rest) = let n = count k rest in if a == k then n + 1 else n

abbrev once : ℕ → ℕ → ℕ
once k a = if a == k then 1 else 0

-- A cell is an error, or the weight of its state and the action `k` make up the weight of the next
-- state and the action `l`.
abbrev balanced : ℕ → ℕ → (State → ℕ) → State → CharClass → Bool
balanced k l weight s c =
    is_state (step s c) s_error
    || (once k (action s c) + weight s == once l (action s c) + weight (step s c))

abbrev Balanced : ℕ → ℕ → (State → ℕ) → Type 0
Balanced k l weight = every_state (λ s. every_class (balanced k l weight s)) ≡ true

count-cons : (k a : ℕ) (rest : List ℕ) → count k (a ∷ rest) ≡ once k a + count k rest
unfolding count
count-cons k a rest = ground arith

equal : (a b : ℕ) → a == b ≡ true → a ≡ b
equal a b h = ground arith

-- An accepted text.
count-balance :
    (k l : ℕ) (weight : State → ℕ)
    → Balanced k l weight
    → (s : State) (cs : List CharClass) → run s cs ≡ s_done
    → count k (actions s cs) + weight s ≡ count l (actions s cs) + weight s_done
unfolding run actions count
count-balance k l weight fits s [] h =
    let same : weight s ≡ weight s_done = ap weight h in omega arith
count-balance k l weight fits s (c ∷ cs) h =
    let cell : balanced k l weight s c ≡ true =
      class-true (balanced k l weight s)
        (state-true (λ s. every_class (balanced k l weight s)) fits s) c in
    elim (either (is_state (step s c) s_error) _ cell) [
      | inl wrong ↦ not_accepted (step s c) cs (is_state-eq _ _ wrong) h
      | inr same ↦
          let ih = count-balance k l weight fits (step s c) cs h in
          let now : once k (action s c) + weight s ≡ once l (action s c) + weight (step s c) =
            equal _ _ same in
          omega (
            arith,
            ih,
            now,
            count-cons k (action s c) (actions (step s c) cs),
            count-cons l (action s c) (actions (step s c) cs),
          )
    ]
  where
    either : (a b : Bool) → a || b ≡ true → (a ≡ true) ⊎ (b ≡ true)
    either true b h = inl refl
    either false b h = inr h

abbrev is_silent : State → CharClass → Bool
is_silent s c = not (action s c == 7)

-- No cell reports an action 7.
count-silent : (s : State) (cs : List CharClass) → count 7 (actions s cs) ≡ 0
unfolding actions count table row
count-silent s [] = refl
count-silent s (c ∷ cs) =
    let cell : is_silent s c ≡ true =
      class-true (is_silent s) (state-true (λ s. every_class (is_silent s)) refl s) c in
    ground (arith, cell, count-silent (step s c) cs)

-- The states behind the one with the number `n`.
abbrev past : ℕ → State → ℕ
past n s = if leb (suc n) (state_index s) then 1 else 0

abbrev in_name : State → ℕ
in_name s = if is_state s s_hdr_nm then 1 else 0

-- While a text leads the automaton from `S_METHOD` to `S_DONE`, the table reports the start of the
-- target, its end, the minor version and the end of the request exactly once each, and as many
-- starts of header names as ends of them.
pub count-actions-accepted :
    (cs : List CharClass)
    → run s_method cs ≡ s_done
    → (count 1 (actions s_method cs) ≡ 1)
      × (count 2 (actions s_method cs) ≡ 1)
      × (count 3 (actions s_method cs) ≡ 1)
      × (count 6 (actions s_method cs) ≡ 1)
      × (count 4 (actions s_method cs) ≡ count 5 (actions s_method cs))
unfolding table row
count-actions-accepted cs h =
    let start = count-balance 1 7 (past 1) refl s_method cs h in
    let end = count-balance 2 7 (past 2) refl s_method cs h in
    let minor = count-balance 3 7 (past 10) refl s_method cs h in
    let finish = count-balance 6 7 (past 17) refl s_method cs h in
    let names = count-balance 4 5 in_name refl s_method cs h in
    let none = count-silent s_method cs in
    (omega arith, omega arith, omega arith, omega arith, omega arith)
