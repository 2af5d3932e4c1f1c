-- ===== src/Reasm/AllSet.antt =====
-- `bitmap_all_set` tests all the bits below a count.
use ws_pi.Base.{
  ℕ, zero, suc, ◌+◌, ◌-◌, ◌*◌, ◌/◌, ◌%◌, ◌^◌, ◌≤◌, ◌<◌, ◌≡◌, ◌⊎◌, inl, inr, refl, ap, ◌∙◌, subst,
  ltb, arith,
}
use ws_pi.Base.{[], ◌∷◌, Bool, true, false, length, All, ◌==◌, if◌then◌else◌}
use ws_pi.Base.{Result, ok, Bool-cases}
use ws_pi.Base.Bits.{bit_and_mask}
use ws_pi.Base.Digits.{digit, ones_of_mask, mask_or_zero}
use ws_pi.Base.Bytes.{Bytes, IsByte}
use ws_pi.Reasm.{all_set_loop, bitmap_all_set}
use ws_pi.Reasm.Bitmap.{has}

abbrev pub AllSet : Bytes → ℕ → Type 0
AllSet bm n = (b : ℕ) → b < n → has bm b ≡ true

-- The answer is yes and all the bits are set, or no and one of them is not.
abbrev pub Decides : Result Bool → Bytes → ℕ → Type 0
Decides r bm n =
    (r ≡ ok true) × AllSet bm n ⊎ (r ≡ ok false) × ((b : ℕ) × (b < n) × (has bm b ≡ false))

has-cons : (x : ℕ) (bm : Bytes) (b : ℕ) → has (x ∷ bm) (b + 8) ≡ has bm b
unfolding has
has-cons x bm b = ground arith

has_first : (x : ℕ) (bm : Bytes) (b : ℕ) → b < 8 → has (x ∷ bm) b ≡ (digit x b == 1)
unfolding has
has_first x bm b h =
    let front : b / 8 ≡ 0 = omega arith in let low : b % 8 ≡ b = omega arith in rw (front, low)

-- A test of the lowest `r` bits of the first byte.
first_byte :
    (r x : ℕ) (bm : Bytes) (t : Bool)
    → r ≤ 8
    → t ≡ (x % 2 ^ r == 2 ^ r - 1)
    → Decides (ok t) (x ∷ bm) r
first_byte r x bm t h e = elim (mask_or_zero r x) [
  | inl m ↦ inl (
    ap ok (ground (arith, e)),
    λ b l. rw (has_first x bm b (omega arith), ones_of_mask r x b m l),
  )
  | inr (k, l, z) ↦ inr (missed k l z, (k, l, rw (has_first x bm k (omega arith), z)))
]
  where
    missed : (k : ℕ) → k < r → digit x k ≡ 0 → ok t ≡ ok false
    missed k l z = elim (Bool-cases (x % 2 ^ r == 2 ^ r - 1)) [
      | inl y ↦ absurd (omega (arith, ones_of_mask r x k (ground arith) l))
      | inr n ↦ ap ok (e ∙ n)
    ]

-- A whole byte, before the bits that follow.
cons-Decides :
    (n x : ℕ) (bm : Bytes) (r : Result Bool)
    → IsByte x
    → Decides r bm n
    → Decides (if x == 0xff then r else ok false) (x ∷ bm) (8 + n)
cons-Decides n x bm r hx d = elim (first_byte 8 x bm (x == 0xff) (omega arith) (ground arith)) [
  | inl (e, set) ↦ elim d [
    | inl (e', set') ↦ inl (
      ground arith,
      λ b l. elim (Bool-cases (ltb b 8)) [
        | inl low ↦ set b (ground arith)
        | inr high ↦
            let shift : b - 8 + 8 ≡ b = ground arith in
            subst (λ c. has (x ∷ bm) c ≡ true) shift
              (has-cons x bm (b - 8) ∙ set' (b - 8) (ground arith))
      ],
    )
    | inr (e', (k, l, z)) ↦ inr (ground arith, (k + 8, omega arith, has-cons x bm k ∙ z))
  ]
  | inr (e, (k, l, z)) ↦ inr (ground arith, (k, omega arith, z))
]

loop-Decides :
    (full remaining : ℕ) (bm : Bytes)
    → remaining < 8
    → All IsByte bm
    → 8 * full + remaining ≤ 8 * length bm
    → Decides (all_set_loop full remaining bm) bm (8 * full + remaining)
unfolding all_set_loop
loop-Decides zero zero bm hr hb h = inl (refl, λ b l. absurd (omega arith))
loop-Decides zero (suc remaining) [] hr hb h = absurd (omega arith)
loop-Decides zero (suc remaining) (x ∷ bm) hr hb h =
    let n : 8 * 0 + suc remaining ≡ suc remaining = omega arith in
    rw n (first_byte (suc remaining) x bm _ (omega arith) (rw (bit_and_mask (suc remaining) x)))
loop-Decides (suc full) remaining [] hr hb h = absurd (omega arith)
loop-Decides (suc full) remaining (x ∷ bm) hr hb h =
    let n : 8 + (8 * full + remaining) ≡ 8 * suc full + remaining = omega arith in
    subst (λ k. Decides (if x == 0xff then all_set_loop full remaining bm else ok false) (x ∷ bm) k)
      n
      (cons-Decides (8 * full + remaining) x bm (all_set_loop full remaining bm) hb.0
        (loop-Decides full remaining bm hr hb.1 (omega arith)))

-- On bytes, and for a count within the bitmap, `bitmap_all_set` returns whether all the bits below
-- the count are set.
pub bitmap_all_set-Decides :
    (bm : Bytes) (n : ℕ) → All IsByte bm → n ≤ 8 * length bm → Decides (bitmap_all_set bm n) bm n
unfolding bitmap_all_set
bitmap_all_set-Decides bm n hb h =
    let e : 8 * (n / 8) + n % 8 ≡ n = omega arith in
    subst (λ k. Decides (all_set_loop (n / 8) (n % 8) bm) bm k) e
      (loop-Decides (n / 8) (n % 8) bm (omega arith) hb (omega arith))
