-- ===== src/Base/Errors.antt =====
-- Python exceptions as values.
use mathlib.Core.Path.{◌≡◌, refl}
use mathlib.Core.Bool.{Bool, true, false}

-- The exceptions that the modelled code raises itself, or lets through from `struct`, `socket`
-- and indexing. Their messages are left out. `out_of_fuel` is no exception: a model of a `while` loop
-- used up its rounds.
pub data Error : Type 0 where
  value_error struct_error os_error index_error assertion_error type_error out_of_fuel : Error

pub data Result {ℓ} (A : Type ℓ) : Type ℓ where
  ok : A → Result A
  err : Error → Result A

-- `if not holds: raise e`
abbrev pub guard : (holds : Bool) → Error → Result (Unit {0})
guard false raised = err raised
guard true raised = ok tt

infixl 5 ◌>>=◌
abbrev pub ◌>>=◌ {ℓ κ} :
    {Value : Type ℓ} {Next : Type κ} → Result Value → (Value → Result Next) → Result Next
err raised >>= next = err raised
ok value >>= next = next value

infixl 5 ◌>>◌
abbrev pub ◌>>◌ {ℓ} :
    {Next : Type ℓ} → (first : Result (Unit {0})) (next : Result Next) → Result Next
first >> next = first >>= λ _. next

-- A chain that returns was right at its first step.
pub >>=-eq-ok {ℓ κ} :
    {Value : Type ℓ} {Next : Type κ} (first : Result Value) (next : Value → Result Next) {y : Next}
    → (first >>= next) ≡ ok y
    → (x : Value) × (first ≡ ok x) × (next x ≡ ok y)
>>=-eq-ok (err raised) next returns = cc
>>=-eq-ok (ok value) next returns = (value, refl, returns)
