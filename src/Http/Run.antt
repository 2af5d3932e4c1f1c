-- ===== src/Http/Run.antt =====
-- The automaton run over a text that is given by its character classes.
use ws_pi.Base.{ℕ, ◌≡◌, refl, List, [], ◌∷◌, ◌++◌}
use ws_pi.Http.{State, CharClass, table}

abbrev pub action : State → CharClass → ℕ
action s c = (table s c).0

abbrev pub step : State → CharClass → State
step s c = (table s c).1

unfoldable pub run : State → List CharClass → State
run s [] = s
run s (c ∷ cs) = run (step s c) cs

-- The actions on the way, the idle action 0 included.
unfoldable pub actions : State → List CharClass → List ℕ
actions s [] = []
actions s (c ∷ cs) = action s c ∷ actions (step s c) cs

pub run-append : (s : State) (xs ys : List CharClass) → run s (xs ++ ys) ≡ run (run s xs) ys
unfolding run
run-append s [] ys = refl
run-append s (x ∷ xs) ys = run-append (step s x) xs ys
