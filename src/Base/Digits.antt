-- ===== src/Base/Digits.antt =====
-- One binary digit of a number, and of a union of bits.
use Prim.Native.Nat.{ℕ, zero, suc, ◌+◌, ◌-◌, ◌*◌, ◌/◌, ◌%◌, ◌^◌, ◌<◌, max, bit_and, bit_or}
use mathlib.Core.Path.{◌≡◌, refl, ap, sym, ◌∙◌}
use native.Mathlib.Nat.{pow-suc, one-le-pow, div-div-eq-div-mul, zero-div, div-add-mod}
use native.Mathlib.Omega.{arith}
use ws_pi.Base.Bits.{bit_and_step, bit_or_step, bit_and-one}
use ws_pi.Base.Tests.{◌==◌, if◌then◌else◌, Bool-cases}
use mathlib.Core.Logic.{◌⊎◌, inl, inr}

abbrev pub digit : ℕ → ℕ → ℕ
digit a k = a / 2 ^ k % 2

half_first : (a k : ℕ) → a / 2 ^ suc k ≡ a / 2 / 2 ^ k
half_first a k =
    let e : 2 ^ suc k ≡ 2 * 2 ^ k = omega (arith, pow-suc 2 k) in
    ap (λ t. a / t) e ∙ sym (div-div-eq-div-mul a 2 (2 ^ k))

pub digit-bit_or : (k a b : ℕ) → digit (bit_or a b) k ≡ max (digit a k) (digit b k)
digit-bit_or zero a b = omega (arith, bit_or_step a b)
digit-bit_or (suc k) a b =
    let half : bit_or a b / 2 ≡ bit_or (a / 2) (b / 2) = omega (arith, bit_or_step a b) in
    rw (half_first (bit_or a b) k, half_first a k, half_first b k, half)
      (digit-bit_or k (a / 2) (b / 2))

pub bit_and_pow : (k a : ℕ) → bit_and a (2 ^ k) ≡ digit a k * 2 ^ k
bit_and_pow zero a = omega (arith, bit_and-one a)
bit_and_pow (suc k) a =
    let e : 2 ^ suc k ≡ 2 * 2 ^ k = omega (arith, pow-suc 2 k) in
    let half : 2 ^ suc k / 2 ≡ 2 ^ k = omega (arith, e) in
    let ih : bit_and (a / 2) (2 ^ suc k / 2) ≡ digit (a / 2) k * 2 ^ k =
      rw half (bit_and_pow k (a / 2)) in
    rw (half_first a k)
      (omega (arith, bit_and_step a (2 ^ suc k), ih, e, ap (λ (t : ℕ). digit (a / 2) k * t) e))

pub digit-pow : (j k : ℕ) → digit (2 ^ j) k ≡ (if j == k then 1 else 0)
digit-pow zero zero = refl
digit-pow zero (suc k) = rw (half_first 1 k) (ground (arith, zero-div (2 ^ k)))
digit-pow (suc j) zero = ground (arith, pow-suc 2 j)
digit-pow (suc j) (suc k) =
    let e : 2 ^ suc j / 2 ≡ 2 ^ j = omega (arith, pow-suc 2 j) in
    rw (half_first (2 ^ suc j) k, e) (ground (arith, digit-pow j k))

mod_first : (r x : ℕ) → x % 2 ^ suc r ≡ 2 * (x / 2 % 2 ^ r) + x % 2
mod_first r x =
    let e : 2 ^ suc r ≡ 2 * 2 ^ r = omega (arith, pow-suc 2 r) in
    let h : x / 2 ^ suc r ≡ x / 2 / 2 ^ r = half_first x r in
    let whole : 2 ^ suc r * (x / 2 ^ suc r) + x % 2 ^ suc r ≡ x = div-add-mod x (2 ^ suc r) in
    let upper : 2 ^ r * (x / 2 / 2 ^ r) + x / 2 % 2 ^ r ≡ x / 2 = div-add-mod (x / 2) (2 ^ r) in
    omega
      (arith, whole, upper, ap (λ (t : ℕ). 2 ^ suc r * t) h, ap (λ (t : ℕ). t * (x / 2 / 2 ^ r)) e)

-- If the lowest `r` digits make up the mask, each of them is 1.
pub ones_of_mask : (r x k : ℕ) → x % 2 ^ r ≡ 2 ^ r - 1 → k < r → digit x k ≡ 1
ones_of_mask zero x k e h = absurd (omega arith)
ones_of_mask (suc r) x zero e h =
    omega (arith, mod_first r x, pow-suc 2 r, one-le-pow r 2 (omega arith))
ones_of_mask (suc r) x (suc k) e h = rw (half_first x k) (
    ones_of_mask r (x / 2) k
      (omega (arith, mod_first r x, pow-suc 2 r, one-le-pow r 2 (omega arith))) (omega arith))

-- Or one of them is 0.
pub mask_or_zero : (r x : ℕ) → (x % 2 ^ r ≡ 2 ^ r - 1) ⊎ ((k : ℕ) × (k < r) × (digit x k ≡ 0))
mask_or_zero zero x = inl (omega arith)
mask_or_zero (suc r) x = elim (Bool-cases (x % 2 == 0)) [
  | inl even ↦ inr (0, omega arith, ground arith)
  | inr odd ↦ elim (mask_or_zero r (x / 2)) [
    | inl e ↦ inl (ground (arith, mod_first r x, pow-suc 2 r, one-le-pow r 2 (omega arith)))
    | inr (k, h, e) ↦ inr (suc k, omega arith, rw (half_first x k) e)
  ]
]

-- A union of bits needs no more room than its parts.
pub bit_or-lt : (n a b : ℕ) → a < 2 ^ n → b < 2 ^ n → bit_or a b < 2 ^ n
bit_or-lt zero a b ha hb =
    let ea : a ≡ 0 = omega arith in let eb : b ≡ 0 = omega arith in rw (ea, eb) (omega arith)
bit_or-lt (suc n) a b ha hb = omega (
  arith,
  bit_or_step a b,
  pow-suc 2 n,
  bit_or-lt n (a / 2) (b / 2) (omega (arith, pow-suc 2 n)) (omega (arith, pow-suc 2 n)),
)
