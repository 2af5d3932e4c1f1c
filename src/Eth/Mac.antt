-- ===== src/Eth/Mac.antt =====
-- hw_test/eth_frames.py: MAC addresses as text. The values of decimal digits above 127 are the argument
-- `other_digit`.
use ws_pi.Base.{
  ℕ, zero, suc, ◌+◌, ◌-◌, ◌*◌, ◌/◌, ◌%◌, ◌<◌, ◌≡◌, refl, ◌∙◌, ap, arith, Option, none, some, List,
  [], ◌∷◌, Bool, false, ◌||◌, ◌&&◌, not,
}
use ws_pi.Base.{
  length, leb, ltb, ◌==◌, if◌then◌else◌, map, All, Result, ok, err, value_error, guard, ◌>>=◌, ◌>>◌,
  Bool-cases, inl, inr,
}
use ws_pi.Base.Bytes.{Bytes, IsByte}
use ws_pi.Base.Texts.{Text, is_space, between, split}
use ws_pi.Base.Texts.Split.{join_with, Free, split-join_with}

-- A hexadecimal digit.
abbrev pub hex_value : (ℕ → Option ℕ) → ℕ → Option ℕ
hex_value other_digit c =
    if between 48 57 c
    then some (c - 48)
    else if between 97 102 c
    then some (c - 87)
    else if between 65 70 c
    then some (c - 55)
    else if leb 128 c
    then other_digit c
    else none

-- The characters that `int` skips around a number.
abbrev pub skipped : ℕ → Bool
skipped c = is_space c && not (between 28 31 c)

abbrev pub or_error : Option ℕ → Result ℕ
or_error none = err value_error
or_error (some x) = ok x

-- A negative number does not fit a byte, but `-0` is 0.
abbrev pub minus : Option ℕ → Result ℕ
minus none = err value_error
minus (some zero) = ok 0
minus (some (suc x)) = err value_error

abbrev pub two_chars : ℕ → ℕ → Option ℕ → Option ℕ → Result ℕ
two_chars a b (some x) (some y) = ok (x * 16 + y)
two_chars a b (some x) none = if skipped b then ok x else err value_error
two_chars a b none y =
    if (a == 43) || skipped a then or_error y else if a == 45 then minus y else err value_error

-- `int(p, 16)` of one or two characters, stored in a byte.
unfoldable pub mac_octet : (ℕ → Option ℕ) → Text → Result ℕ
unfolding is_space
mac_octet other_digit (a ∷ []) = or_error (hex_value other_digit a)
mac_octet other_digit (a ∷ b ∷ []) =
    two_chars a b (hex_value other_digit a) (hex_value other_digit b)
mac_octet other_digit _ = err value_error

unfoldable pub mac_octets : (ℕ → Option ℕ) → List Text → Result Bytes
unfolding mac_octet
mac_octets other_digit [] = ok []
mac_octets other_digit (p ∷ ps) = do
  x ← mac_octet other_digit p
  xs ← mac_octets other_digit ps
  ok (x ∷ xs)

unfoldable pub mac_str_to_bytes : (ℕ → Option ℕ) → Text → Result Bytes
unfolding mac_octets split
mac_str_to_bytes other_digit mac = do
  let parts = split 58 mac
  guard (length parts == 6) value_error
  mac_octets other_digit parts

abbrev pub hex_lower : ℕ → ℕ
hex_lower d = if ltb d 10 then 48 + d else 87 + d

-- `f"{b:02x}"` of a byte.
abbrev pub two_digits : ℕ → Text
two_digits b = hex_lower (b / 16) ∷ hex_lower (b % 16) ∷ []

unfoldable pub mac_bytes_to_str : Bytes → Result Text
mac_bytes_to_str mac = do
  guard (length mac == 6) value_error
  ok (join_with 58 (map two_digits mac))

hex_value-hex_lower :
    (other_digit : ℕ → Option ℕ) (d : ℕ) → d < 16 → hex_value other_digit (hex_lower d) ≡ some d
hex_value-hex_lower other_digit d h = elim (Bool-cases (ltb d 10)) [
  | inl low ↦ rw low (ground arith)
  | inr high ↦ rw high (ground arith)
]

hex_lower-other : (d : ℕ) → d < 16 → hex_lower d == 58 ≡ false
hex_lower-other d h = ground arith

mac_octet-two_digits :
    (other_digit : ℕ → Option ℕ) (b : ℕ) → b < 256 → mac_octet other_digit (two_digits b) ≡ ok b
unfolding mac_octet
mac_octet-two_digits other_digit b h =
    let back : b / 16 * 16 + b % 16 ≡ b = omega arith in
    rw (
      hex_value-hex_lower other_digit (b / 16) (omega arith),
      hex_value-hex_lower other_digit (b % 16) (omega arith),
      back,
    )

mac_octets-map :
    (other_digit : ℕ → Option ℕ) (mac : Bytes)
    → All IsByte mac
    → mac_octets other_digit (map two_digits mac) ≡ ok mac
unfolding mac_octets
mac_octets-map other_digit [] h = refl
mac_octets-map other_digit (b ∷ mac) h =
    rw (mac_octet-two_digits other_digit b h.0, mac_octets-map other_digit mac h.1)

two_digits-Free : (mac : Bytes) → All IsByte mac → All (Free 58) (map two_digits mac)
two_digits-Free [] h = tt
two_digits-Free (b ∷ mac) h =
    let byte = h.0 in
    (
      (hex_lower-other (b / 16) (omega arith), (hex_lower-other (b % 16) (omega arith), tt)),
      two_digits-Free mac h.1,
    )

length-map : (mac : Bytes) → length (map two_digits mac) ≡ length mac
length-map [] = refl
length-map (b ∷ mac) = ap suc (length-map mac)

split-text :
    (mac : Bytes)
    → All IsByte mac
    → 0 < length mac
    → split 58 (join_with 58 (map two_digits mac)) ≡ map two_digits mac
split-text [] h l = absurd (omega arith)
split-text (b ∷ mac) h l =
    split-join_with 58 (two_digits b) (map two_digits mac) (two_digits-Free (b ∷ mac) h)

-- For six bytes, `mac_bytes_to_str` returns a text, and `mac_str_to_bytes` returns the bytes of that text.
pub mac_str_to_bytes-mac_bytes_to_str :
    (other_digit : ℕ → Option ℕ) (mac : Bytes)
    → length mac ≡ 6
    → All IsByte mac
    → (text : Text) × (mac_bytes_to_str mac ≡ ok text)
      × (mac_str_to_bytes other_digit text ≡ ok mac)
unfolding mac_bytes_to_str mac_str_to_bytes
mac_str_to_bytes-mac_bytes_to_str other_digit mac l h =
    let parts = split-text mac h (omega arith) in
    let count : length (map two_digits mac) ≡ 6 = length-map mac ∙ l in
    (join_with 58 (map two_digits mac), rw l, rw (parts, count) (mac_octets-map other_digit mac h))
