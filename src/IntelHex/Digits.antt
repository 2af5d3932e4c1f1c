-- ===== src/IntelHex/Digits.antt =====
-- `bytes.fromhex` reads back what `bytes.hex().upper()` writes.
use ws_pi.Base.{ℕ, ◌+◌, ◌*◌, ◌/◌, ◌%◌, ◌<◌, ◌≡◌, refl, arith, some, [], ◌∷◌, ◌++◌, All, false}
use ws_pi.Base.{length, ok}
use ws_pi.Base.Bytes.{Bytes, IsByte}
use ws_pi.IntelHex.{hex_digit, hex_upper, digit_value, is_space, fromhex}

digit_value-hex_digit : (d : ℕ) → d < 16 → digit_value (hex_digit d) ≡ some d
unfolding digit_value hex_digit
digit_value-hex_digit d h = ground arith

is_space-hex_digit : (d : ℕ) → d < 16 → is_space (hex_digit d) ≡ false
unfolding is_space hex_digit
is_space-hex_digit d h = ground arith

pub fromhex-hex_upper : (bs : Bytes) → All IsByte bs → fromhex (hex_upper bs) ≡ ok bs
unfolding fromhex hex_upper
fromhex-hex_upper [] h = refl
fromhex-hex_upper (b ∷ bs) h =
    let byte : b / 16 * 16 + b % 16 ≡ b = omega arith in
    rw (is_space-hex_digit (b / 16) (omega (arith, h.0)), fromhex)
      (rw (
        digit_value-hex_digit (b / 16) (omega (arith, h.0)),
        digit_value-hex_digit (b % 16) (omega arith),
        fromhex-hex_upper bs h.1,
        byte,
      ))

pub length-hex_upper : (bs : Bytes) → length (hex_upper bs) ≡ 2 * length bs
unfolding hex_upper
length-hex_upper [] = refl
length-hex_upper (b ∷ bs) = omega (arith, length-hex_upper bs)

pub hex_upper-append : (xs ys : Bytes) → hex_upper xs ++ hex_upper ys ≡ hex_upper (xs ++ ys)
unfolding hex_upper
hex_upper-append [] ys = refl
hex_upper-append (x ∷ xs) ys = rw (hex_upper-append xs ys)
