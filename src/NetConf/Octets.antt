-- ===== src/NetConf/Octets.antt =====
-- The octets that the linter accepts are the decimal numbers up to 255.
use ws_pi.Base.{
  ℕ, ◌+◌, ◌-◌, ◌*◌, ◌/◌, ◌%◌, ◌≤◌, ◌<◌, ◌≡◌, refl, sym, ◌∙◌, ap, arith, [], ◌∷◌, true, false, ◌&&◌,
  not,
}
use ws_pi.Base.{ltb, ◌==◌, if◌then◌else◌, leb→le, ltb→lt, lt→ltb, Bool-cases, inl, inr}
use ws_pi.Base.Texts.{Text}
use ws_pi.NetConf.{is_digit, all_of, int_from, leading_zero, is_valid_octet}
use ws_pi.NetConf.Keys.{both}

abbrev pub digit : ℕ → ℕ
digit d = 48 + d

-- A number below 1000 in decimal, without leading zeros.
abbrev pub decimal : ℕ → Text
decimal n =
    if ltb n 10
    then digit n ∷ []
    else if ltb n 100
    then digit (n / 10) ∷ digit (n % 10) ∷ []
    else digit (n / 100) ∷ digit (n / 10 % 10) ∷ digit (n % 10) ∷ []

int_from-le : (acc : ℕ) (s : Text) → acc ≤ int_from acc s
unfolding int_from
int_from-le acc [] = omega arith
int_from-le acc (c ∷ s) = omega (arith, int_from-le (acc * 10 + (c - 48)) s)

decimal-one : (n : ℕ) → n < 10 → decimal n ≡ digit n ∷ []
decimal-one n h = rw (lt→ltb n 10 h)

decimal-two : (n : ℕ) → 10 ≤ n → n < 100 → decimal n ≡ digit (n / 10) ∷ digit (n % 10) ∷ []
decimal-two n l h = let large : ltb n 10 ≡ false = ground arith in rw (large, lt→ltb n 100 h)

decimal-three :
    (n : ℕ) → 100 ≤ n → decimal n ≡ digit (n / 100) ∷ digit (n / 10 % 10) ∷ digit (n % 10) ∷ []
decimal-three n l =
    let large : ltb n 10 ≡ false = ground arith in
    let larger : ltb n 100 ≡ false = ground arith in rw (large, larger)

one_valid : (a : ℕ) → a < 10 → is_valid_octet (digit a ∷ []) ≡ true
unfolding is_valid_octet int_from
one_valid a h = ground arith

two_valid : (a b : ℕ) → 0 < a → a < 10 → b < 10 → is_valid_octet (digit a ∷ digit b ∷ []) ≡ true
unfolding is_valid_octet int_from
two_valid a b l h k = ground arith

three_valid :
    (a b c : ℕ)
    → 0 < a
    → a < 10
    → b < 10
    → c < 10
    → a * 100 + b * 10 + c ≤ 255
    → is_valid_octet (digit a ∷ digit b ∷ digit c ∷ []) ≡ true
unfolding is_valid_octet int_from
three_valid a b c l h k m n = ground arith

pub decimal-is_valid_octet : (n : ℕ) → n ≤ 255 → is_valid_octet (decimal n) ≡ true
decimal-is_valid_octet n h = elim (Bool-cases (ltb n 10)) [
  | inl one ↦ rw (decimal-one n (ltb→lt n 10 one)) (one_valid n (ltb→lt n 10 one))
  | inr more ↦ elim (Bool-cases (ltb n 100)) [
    | inl two ↦
        let l : 10 ≤ n = ground arith in
        let u : n < 100 = ground arith in
        rw (decimal-two n l u)
          (two_valid (n / 10) (n % 10) (omega arith) (omega arith) (omega arith))
    | inr three ↦
        let l : 100 ≤ n = ground arith in
        rw (decimal-three n l) (
          three_valid (n / 100) (n / 10 % 10) (n % 10) (omega arith) (omega arith) (omega arith)
            (omega arith) (omega arith))
  ]
]

-- The digits of an octet.
octet_facts :
    (c : ℕ) (p : Text)
    → is_valid_octet (c ∷ p) ≡ true
    → (all_of is_digit (c ∷ p) ≡ true) × (leading_zero (c ∷ p) ≡ false) × (int_from 0 (c ∷ p) ≤ 255)
unfolding is_valid_octet
octet_facts c p h =
    let (first, value) = both (all_of is_digit (c ∷ p) && not (leading_zero (c ∷ p))) _ h in
    let (digits, no_zero) = both (all_of is_digit (c ∷ p)) _ first in
    (digits, ground (arith, no_zero), leb→le _ 255 value)

digit_fits : (c : ℕ) → is_digit c ≡ true → (48 ≤ c) × (c ≤ 57)
digit_fits c h = ground (arith, h)

digit_back : (c d : ℕ) → 48 ≤ c → d ≡ c - 48 → c ≡ digit d
digit_back c d h e = omega arith

not_zero : (c : ℕ) → c == 48 ≡ false → 48 ≤ c → 48 < c
not_zero c h k = ground (arith, h)

no_octet : {Goal : Type 0} → is_valid_octet [] ≡ true → Goal
unfolding is_valid_octet
no_octet h = cc

pub is_valid_octet-decimal :
    (p : Text) → is_valid_octet p ≡ true → (n : ℕ) × (n ≤ 255) × (p ≡ decimal n)
unfolding int_from
is_valid_octet-decimal [] h = no_octet h
is_valid_octet-decimal (a ∷ []) h =
    let (digits, no_zero, value) = octet_facts a [] h in
    let (l, u) = digit_fits a (both (is_digit a) _ digits).0 in
    let n = a - 48 in
    (n, omega arith, ap (λ t. t ∷ []) (digit_back a n l refl) ∙ sym (decimal-one n (omega arith)))
is_valid_octet-decimal (a ∷ b ∷ []) h =
    let (digits, no_zero, value) = octet_facts a (b ∷ []) h in
    let (da, digits') = both (is_digit a) _ digits in
    let (l, u) = digit_fits a da in
    let (l', u') = digit_fits b (both (is_digit b) _ digits').0 in
    let positive = not_zero a no_zero l in
    let n = (a - 48) * 10 + (b - 48) in
    let first = digit_back a (n / 10) l (omega arith) in
    let second = digit_back b (n % 10) l' (omega arith) in
    (
      n,
      omega arith,
      ap (λ t. t ∷ b ∷ []) first
          ∙ ap (λ t. digit (n / 10) ∷ t ∷ []) second
          ∙ sym (decimal-two n (omega arith) (omega arith)),
    )
is_valid_octet-decimal (a ∷ b ∷ c ∷ []) h =
    let (digits, no_zero, value) = octet_facts a (b ∷ c ∷ []) h in
    let (da, digits') = both (is_digit a) _ digits in
    let (db, digits'') = both (is_digit b) _ digits' in
    let (l, u) = digit_fits a da in
    let (l', u') = digit_fits b db in
    let (l'', u'') = digit_fits c (both (is_digit c) _ digits'').0 in
    let positive = not_zero a no_zero l in
    let n = (a - 48) * 100 + (b - 48) * 10 + (c - 48) in
    let first = digit_back a (n / 100) l (omega arith) in
    let second = digit_back b (n / 10 % 10) l' (omega arith) in
    let third = digit_back c (n % 10) l'' (omega arith) in
    (
      n,
      omega arith,
      ap (λ t. t ∷ b ∷ c ∷ []) first
          ∙ ap (λ t. digit (n / 100) ∷ t ∷ c ∷ []) second
          ∙ ap (λ t. digit (n / 100) ∷ digit (n / 10 % 10) ∷ t ∷ []) third
          ∙ sym (decimal-three n (omega arith)),
    )
is_valid_octet-decimal (a ∷ b ∷ c ∷ d ∷ s) h =
    let (digits, no_zero, value) = octet_facts a (b ∷ c ∷ d ∷ s) h in
    let (l, u) = digit_fits a (both (is_digit a) _ digits).0 in
    let positive = not_zero a no_zero l in
    let grows =
      int_from-le ((((0 * 10 + (a - 48)) * 10 + (b - 48)) * 10 + (c - 48)) * 10 + (d - 48)) s in
    absurd (omega arith)
