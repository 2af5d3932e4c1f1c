-- ===== src/Reasm/Bitmap.antt =====
-- A bitmap as the set of its bits.
use ws_pi.Base.{ℕ, zero, suc, ◌+◌, ◌-◌, ◌*◌, ◌/◌, ◌%◌, ◌^◌, ◌≤◌, ◌<◌, ◌≡◌, refl, ◌∙◌, ap}
use ws_pi.Base.{arith, List, [], ◌∷◌, Bool, true, false, not, ◌&&◌, ◌||◌, bit_or, length, All}
use ws_pi.Base.{get_or, set, replicate, length-set, ltb, leb, ◌==◌, if◌then◌else◌, ok}
use ws_pi.Base.Digits.{digit, digit-bit_or, bit_and_pow, digit-pow, bit_or-lt}
use ws_pi.Base.Bytes.{Bytes, IsByte}
use ws_pi.Reasm.{
  set_bit, set_range, set_ranges, make_bitmap, bitmap_has_bit, bitmap_or, empty_bitmap,
}
use native.Mathlib.Nat.{one-le-pow, zero-div, pow-le-pow_right}

-- Is the bit `b` in the set? Bits beyond the end are not.
unfoldable pub has : Bytes → ℕ → Bool
has bm b = digit (get_or bm (b / 8) 0) (b % 8) == 1

get_or-set :
    (xs : Bytes) (i j v : ℕ)
    → i < length xs
    → get_or (set xs i v) j 0 ≡ (if i == j then v else get_or xs j 0)
get_or-set [] i j v h = absurd (omega arith)
get_or-set (x ∷ xs) zero zero v h = refl
get_or-set (x ∷ xs) zero (suc j) v h = ground arith
get_or-set (x ∷ xs) (suc i) zero v h = ground arith
get_or-set (x ∷ xs) (suc i) (suc j) v h = ground (arith, get_or-set xs i j v (omega arith))

All-set {ℓ κ} :
    {A : Type ℓ} (P : A → Type κ) (xs : List A) (i : ℕ) (v : A)
    → P v
    → All P xs
    → All P (set xs i v)
All-set P [] i v h k = tt
All-set P (x ∷ xs) zero v h k = (h, k.1)
All-set P (x ∷ xs) (suc i) v h k = (k.0, All-set P xs i v h k.1)

get_or-IsByte : (xs : Bytes) (i : ℕ) → All IsByte xs → get_or xs i 0 < 2 ^ 8
get_or-IsByte [] i h = omega arith
get_or-IsByte (x ∷ xs) zero h = h.0
get_or-IsByte (x ∷ xs) (suc i) h = get_or-IsByte xs i h.1

pow_byte : (k : ℕ) → k < 8 → 2 ^ k < 2 ^ 8
pow_byte k h =
    let top : 2 ^ k ≤ 2 ^ 7 =
      pow-le-pow_right {n = 2} (omega arith) {i = k} {j = 7} (omega arith) in
    omega arith

-- `set_bit` adds one bit.
pub set_bit_lem :
    (bm : Bytes) (b : ℕ)
    → b < 8 * length bm
    → All IsByte bm
    → (bm' : Bytes) × (set_bit bm b ≡ ok bm')
      × (length bm' ≡ length bm)
      × All IsByte bm'
      × ((c : ℕ) → has bm' c ≡ ((b == c) || has bm c))
unfolding set_bit has
set_bit_lem bm b h hb =
    let v = bit_or (get_or bm (b / 8) 0) (2 ^ (b % 8)) in
    let inside : ltb (b / 8) (length bm) ≡ true = ground arith in
    (
      set bm (b / 8) v,
      rw inside,
      length-set bm (b / 8) v,
      All-set IsByte bm (b / 8) v
          (bit_or-lt 8 (get_or bm (b / 8) 0) (2 ^ (b % 8)) (get_or-IsByte bm (b / 8) hb)
            (pow_byte (b % 8) (omega arith)))
          hb,
      λ c. rw (get_or-set bm (b / 8) (c / 8) v (omega arith)) (
          ground (
            arith,
            digit-bit_or (c % 8) (get_or bm (b / 8) 0) (2 ^ (b % 8)),
            digit-pow (b % 8) (c % 8),
          )),
    )

set_range_lem :
    (count b : ℕ) (bm : Bytes)
    → b + count ≤ 8 * length bm
    → All IsByte bm
    → (bm' : Bytes) × (set_range count b bm ≡ ok bm')
      × (length bm' ≡ length bm)
      × All IsByte bm'
      × ((c : ℕ) → has bm' c ≡ ((leb b c && ltb c (b + count)) || has bm c))
unfolding set_range
set_range_lem zero b bm h hb = (bm, refl, refl, hb, λ c. ground arith)
set_range_lem (suc count) b bm h hb =
    let (bm', e', l', b', h') = set_bit_lem bm b (omega arith) hb in
    let (more, e, l, bytes, m) = set_range_lem count (b + 1) bm' (omega arith) b' in
    (more, rw e' e, l ∙ l', bytes, λ c. ground (arith, h' c, m c))

get_or-replicate : (n i : ℕ) → get_or {A = ℕ} (replicate n 0) i 0 ≡ 0
get_or-replicate zero i = refl
get_or-replicate (suc n) zero = refl
get_or-replicate (suc n) (suc i) = get_or-replicate n i

All-replicate : (n : ℕ) → All IsByte (replicate n 0)
All-replicate zero = tt
All-replicate (suc n) = (omega arith, All-replicate n)

pub has_empty : (c : ℕ) → has empty_bitmap c ≡ false
unfolding has
has_empty c = rw (get_or-replicate 32 (c / 8)) (ground (arith, zero-div (2 ^ (c % 8))))

-- Within 2048 bytes `make_bitmap` marks exactly the 8-byte units that a range meets.
pub make_bitmap_lem :
    (start end : ℕ)
    → end ≤ 2048
    → start < end
    → (bm : Bytes) × (make_bitmap ((start, end) ∷ []) ≡ ok bm)
      × (length bm ≡ 32)
      × All IsByte bm
      × ((c : ℕ) → has bm c ≡ (leb (start / 8) c && ltb c ((end + 7) / 8)))
unfolding make_bitmap set_ranges
make_bitmap_lem start end h p =
    let (bm, e, l, bytes, m) =
      set_range_lem ((end + 7) / 8 - start / 8) (start / 8) empty_bitmap (omega arith)
        (All-replicate 32) in
    (bm, rw e, l, bytes, λ c. ground (arith, m c, has_empty c))

one_digit : (d p : ℕ) → d < 2 → 0 < p → not (d * p == 0) ≡ (d == 1)
one_digit zero p h k = ground arith
one_digit (suc zero) p h k = ground arith
one_digit (suc (suc d)) p h k = absurd (omega arith)

pub bitmap_has_bit_lem :
    (bm : Bytes) (b : ℕ) → b < 8 * length bm → bitmap_has_bit bm b ≡ ok (has bm b)
unfolding bitmap_has_bit has
bitmap_has_bit_lem bm b h =
    let inside : ltb (b / 8) (length bm) ≡ true = ground arith in
    rw (inside, bit_and_pow (b % 8) (get_or bm (b / 8) 0))
      (ap ok (
        one_digit (digit (get_or bm (b / 8) 0) (b % 8)) (2 ^ (b % 8)) (omega arith)
          (one-le-pow (b % 8) 2 (omega arith))))

get_or-bitmap_or :
    (a b : Bytes) (i : ℕ)
    → length a ≡ length b
    → get_or (bitmap_or a b) i 0 ≡ bit_or (get_or a i 0) (get_or b i 0)
unfolding bitmap_or
get_or-bitmap_or [] [] i h = refl
get_or-bitmap_or [] (y ∷ b) i h = absurd (omega arith)
get_or-bitmap_or (x ∷ a) [] i h = absurd (omega arith)
get_or-bitmap_or (x ∷ a) (y ∷ b) zero h = refl
get_or-bitmap_or (x ∷ a) (y ∷ b) (suc i) h = get_or-bitmap_or a b i (omega arith)

pub has-bitmap_or :
    (a b : Bytes) (c : ℕ) → length a ≡ length b → has (bitmap_or a b) c ≡ (has a c || has b c)
unfolding has
has-bitmap_or a b c h =
    rw (get_or-bitmap_or a b (c / 8) h)
      (ground (arith, digit-bit_or (c % 8) (get_or a (c / 8) 0) (get_or b (c / 8) 0)))

pub length-bitmap_or : (a b : Bytes) → length a ≡ length b → length (bitmap_or a b) ≡ length a
unfolding bitmap_or
length-bitmap_or [] b h = refl
length-bitmap_or (x ∷ a) [] h = absurd (omega arith)
length-bitmap_or (x ∷ a) (y ∷ b) h = ap suc (length-bitmap_or a b (omega arith))

pub bitmap_or-IsByte : (a b : Bytes) → All IsByte a → All IsByte b → All IsByte (bitmap_or a b)
unfolding bitmap_or
bitmap_or-IsByte [] b h k = tt
bitmap_or-IsByte (x ∷ a) [] h k = tt
bitmap_or-IsByte (x ∷ a) (y ∷ b) h k = (bit_or-lt 8 x y h.0 k.0, bitmap_or-IsByte a b h.1 k.1)
