-- ===== src/Base/Bits.antt =====
-- Masks and unions of bits as arithmetic, for every width, from the digit recursion that the
-- native operations stand for.
use Prim.Native.Nat.{ℕ, zero, suc, ◌+◌, ◌-◌, ◌*◌, ◌/◌, ◌%◌, ◌^◌, ◌≤◌, ◌<◌, min, max}
use Prim.Native.Nat.{bit_and, bit_or, digits, bit_and-bitwise, bit_or-bitwise}
use mathlib.Core.Path.{◌∙◌, sym, ◌≡◌, refl, ap, subst}
use native.Mathlib.Nat.{pow-suc, one-le-pow, mod-lt, div-add-mod'}
use native.Mathlib.Omega.{arith}

-- What a digit recursion yields does not depend on its rounds, as long as there is one for each unit
-- of the left operand.
module _ (rest : ℕ → ℕ) (pick : ℕ → ℕ → ℕ) where
  digits_rounds :
      (left right r s : ℕ)
      → left ≤ r
      → left ≤ s
      → digits rest pick r left right ≡ digits rest pick s left right
  digits_rounds zero right zero zero enough more = refl
  digits_rounds zero right zero (suc s) enough more = refl
  digits_rounds zero right (suc r) zero enough more = refl
  digits_rounds zero right (suc r) (suc s) enough more = refl
  digits_rounds (suc left) right zero s enough more = absurd (omega arith)
  digits_rounds (suc left) right (suc r) zero enough more = absurd (omega arith)
  digits_rounds (suc left) right (suc r) (suc s) enough more =
      ap (λ t. t * 2 + pick (suc left % 2) (right % 2))
        (digits_rounds (suc left / 2) (right / 2) r s (omega arith) (omega arith))

  -- The lowest digit apart.
  digits_split :
      (left right : ℕ)
      → 0 < left
      → digits rest pick left left right
        ≡ digits rest pick (left / 2) (left / 2) (right / 2) * 2 + pick (left % 2) (right % 2)
  digits_split zero right some_left = absurd (omega arith)
  digits_split (suc left) right some_left =
      ap (λ t. t * 2 + pick (suc left % 2) (right % 2))
        (digits_rounds (suc left / 2) (right / 2) left (suc left / 2) (omega arith) (omega arith))

pub bit_and_step : (a b : ℕ) → bit_and a b ≡ min (a % 2) (b % 2) + 2 * bit_and (a / 2) (b / 2)
bit_and_step zero b = omega (arith, bit_and-bitwise 0 b, bit_and-bitwise 0 (b / 2))
bit_and_step (suc a) b =
    let whole = bit_and-bitwise (suc a) b in
    let half = bit_and-bitwise (suc a / 2) (b / 2) in
    omega (arith, whole, half, digits_split (λ _. 0) min (suc a) b (omega arith))

pub zero-bit_or : (b : ℕ) → bit_or 0 b ≡ b
zero-bit_or b = bit_or-bitwise 0 b

pub bit_or_step : (a b : ℕ) → bit_or a b ≡ max (a % 2) (b % 2) + 2 * bit_or (a / 2) (b / 2)
bit_or_step zero b = omega (arith, zero-bit_or b, zero-bit_or (b / 2))
bit_or_step (suc a) b =
    let whole = bit_or-bitwise (suc a) b in
    let half = bit_or-bitwise (suc a / 2) (b / 2) in
    omega (arith, whole, half, digits_split (λ y. y) max (suc a) b (omega arith))

two_pow_suc : (k : ℕ) → 2 ^ suc k ≡ 2 * 2 ^ k
two_pow_suc k = omega (arith, pow-suc 2 k)

mul_two_pow_suc : (a k : ℕ) → a * 2 ^ suc k ≡ 2 * (a * 2 ^ k)
mul_two_pow_suc a k = omega (arith, ap (λ (t : ℕ). a * t) (two_pow_suc k))

-- Both operations with 0 are found by halving, with a bound to halve.
halves_with_zero : (bound a : ℕ) → a ≤ bound → (bit_and a 0 ≡ 0) × (bit_or a 0 ≡ a)
halves_with_zero bound zero h = (bit_and-bitwise 0 0, bit_or-bitwise 0 0)
halves_with_zero zero (suc a) h = absurd (omega arith)
halves_with_zero (suc bound) (suc a) h =
    let (none, all) = halves_with_zero bound (suc a / 2) (omega arith) in
    (omega (arith, bit_and_step (suc a) 0), omega (arith, bit_or_step (suc a) 0))

pub bit_and-zero : (a : ℕ) → bit_and a 0 ≡ 0
bit_and-zero a = (halves_with_zero a a (omega arith)).0

pub bit_or-zero : (a : ℕ) → bit_or a 0 ≡ a
bit_or-zero a = (halves_with_zero a a (omega arith)).1

mask_parts : (k q r : ℕ) → r < 2 ^ k → bit_and (q * 2 ^ k + r) (2 ^ k - 1) ≡ r
mask_parts zero q r h = omega (arith, bit_and-zero (q * 1 + r))
mask_parts (suc k) q r h =
    let halves : (q * 2 ^ suc k + r) / 2 ≡ q * 2 ^ k + r / 2 = omega (arith, mul_two_pow_suc q k) in
    let mask : (2 ^ suc k - 1) / 2 ≡ 2 ^ k - 1 = omega (arith, two_pow_suc k) in
    let odd : (2 ^ suc k - 1) % 2 ≡ 1 =
      omega (arith, two_pow_suc k, one-le-pow k 2 (omega arith)) in
    let low : (q * 2 ^ suc k + r) % 2 ≡ r % 2 = omega (arith, mul_two_pow_suc q k) in
    let ih : bit_and ((q * 2 ^ suc k + r) / 2) ((2 ^ suc k - 1) / 2) ≡ r / 2 =
      rw (halves, mask) (mask_parts k q (r / 2) (omega (arith, two_pow_suc k))) in
    omega (arith, bit_and_step (q * 2 ^ suc k + r) (2 ^ suc k - 1))

-- A mask of `k` ones keeps the lowest `k` bits.
pub bit_and_mask : (k a : ℕ) → bit_and a (2 ^ k - 1) ≡ a % 2 ^ k
bit_and_mask k a =
    let e : a / 2 ^ k * 2 ^ k + a % 2 ^ k ≡ a = div-add-mod' a (2 ^ k) in
    subst (λ t. bit_and t (2 ^ k - 1) ≡ a % 2 ^ k) e
      (mask_parts k (a / 2 ^ k) (a % 2 ^ k) (mod-lt a (one-le-pow k 2 (omega arith))))

-- Where the bits do not meet, the union is the sum.
pub bit_or_disjoint : (k a b : ℕ) → b < 2 ^ k → bit_or (a * 2 ^ k) b ≡ a * 2 ^ k + b
bit_or_disjoint zero a b h =
    let e : b ≡ 0 = omega arith in rw e (omega (arith, bit_or-zero (a * 1)))
bit_or_disjoint (suc k) a b h =
    let half : a * 2 ^ suc k / 2 ≡ a * 2 ^ k = omega (arith, mul_two_pow_suc a k) in
    let ih : bit_or (a * 2 ^ suc k / 2) (b / 2) ≡ a * 2 ^ k + b / 2 =
      rw half (bit_or_disjoint k a (b / 2) (omega (arith, two_pow_suc k))) in
    omega (arith, mul_two_pow_suc a k, bit_or_step (a * 2 ^ suc k) b)

pub bit_and-one : (a : ℕ) → bit_and a 1 ≡ a % 2
bit_and-one a = bit_and_mask 1 a

bit_or_swap : (bound a b : ℕ) → a ≤ bound → bit_or a b ≡ bit_or b a
bit_or_swap bound zero b h = zero-bit_or b ∙ sym (bit_or-zero b)
bit_or_swap zero (suc a) b h = absurd (omega arith)
bit_or_swap (suc bound) (suc a) b h = omega (
  arith,
  bit_or_step (suc a) b,
  bit_or_step b (suc a),
  bit_or_swap bound (suc a / 2) (b / 2) (omega arith),
)

pub bit_or_comm : (a b : ℕ) → bit_or a b ≡ bit_or b a
bit_or_comm a b = bit_or_swap a a b (omega arith)
