-- ===== src/NetConf.antt =====
-- scripts/lint_network_conf.py: the rules of `network.conf`. A text is a list of code points. The
-- messages of the errors are left out. Which characters above 127 are decimal digits is the argument
-- `other_digit` of the definitions that need it.
pub mod Lint
pub mod Keys
pub mod Octets
pub mod Addresses
pub mod Trailing
pub mod Sound
use ws_pi.Base.{
  ℕ, zero, suc, ◌+◌, ◌-◌, ◌*◌, Option, none, some, List, [], ◌∷◌, Bool, true, false, ◌&&◌, ◌||◌,
  not,
}
use ws_pi.Base.{length, ltb, leb, ◌==◌, if◌then◌else◌}
use ws_pi.Base.Texts.{Text, is_space, between, same_text, split}

-- The keys; a key that the format does not know is none of them.
pub data Key : Type 0 where
  ip netmask gateway hostname ntp_server mac dhcp : Key

abbrev pub key_name : Key → Text
key_name ip = 105 ∷ 112 ∷ []
key_name netmask = 110 ∷ 101 ∷ 116 ∷ 109 ∷ 97 ∷ 115 ∷ 107 ∷ []
key_name gateway = 103 ∷ 97 ∷ 116 ∷ 101 ∷ 119 ∷ 97 ∷ 121 ∷ []
key_name hostname = 104 ∷ 111 ∷ 115 ∷ 116 ∷ 110 ∷ 97 ∷ 109 ∷ 101 ∷ []
key_name ntp_server = 110 ∷ 116 ∷ 112 ∷ 95 ∷ 115 ∷ 101 ∷ 114 ∷ 118 ∷ 101 ∷ 114 ∷ []
key_name mac = 109 ∷ 97 ∷ 99 ∷ []
key_name dhcp = 100 ∷ 104 ∷ 99 ∷ 112 ∷ []

-- `# WSPI5CFG`
abbrev pub magic : Text
magic = 35 ∷ 32 ∷ 87 ∷ 83 ∷ 80 ∷ 73 ∷ 53 ∷ 67 ∷ 70 ∷ 71 ∷ []

abbrev pub yes : Text
yes = 121 ∷ 101 ∷ 115 ∷ []

abbrev pub no : Text
no = 110 ∷ 111 ∷ []

pub data Code : Type 0 where
  e_magic e_line e_key e_dup e_req e_ip e_host e_mac : Code

pub record LintError : Type 0 where
  pub line : ℕ
  pub code : Code

abbrev pub is_digit : ℕ → Bool
is_digit c = between 48 57 c

abbrev pub all_of : (ℕ → Bool) → Text → Bool
all_of p [] = true
all_of p (c ∷ s) = p c && all_of p s

-- `int(p)` of decimal digits, after the digits whose value is `acc`.
unfoldable pub int_from : ℕ → Text → ℕ
int_from acc [] = acc
int_from acc (c ∷ s) = int_from (acc * 10 + (c - 48)) s

abbrev pub leading_zero : Text → Bool
leading_zero (c ∷ d ∷ s) = c == 48
leading_zero _ = false

unfoldable pub is_valid_octet : Text → Bool
unfolding int_from
is_valid_octet [] = false
is_valid_octet (c ∷ p) =
    all_of is_digit (c ∷ p) && not (leading_zero (c ∷ p)) && leb (int_from 0 (c ∷ p)) 255

abbrev pub every_part : (Text → Bool) → List Text → Bool
every_part p [] = true
every_part p (t ∷ ts) = p t && every_part p ts

unfoldable pub validate_ip : Text → Bool
unfolding is_valid_octet split
validate_ip s = let parts = split 46 s in (length parts == 4) && every_part is_valid_octet parts

unfoldable pub validate_yesno : Text → Bool
validate_yesno s = same_text s yes || same_text s no

abbrev pub hostname_max_len : ℕ
hostname_max_len = 63

abbrev pub ldh_first : ℕ → Bool
ldh_first c = between 97 122 c || between 65 90 c || is_digit c

abbrev pub ldh : ℕ → Bool
ldh c = ldh_first c || (c == 45)

-- `s[-1]`, of a text that starts with `c`.
abbrev pub last : ℕ → Text → ℕ
last c [] = c
last c (d ∷ s) = last d s

unfoldable pub validate_hostname : Text → Bool
validate_hostname [] = false
validate_hostname (c ∷ s) =
    not (ltb hostname_max_len (length (c ∷ s)))
    && (ldh_first c && ldh_first (last c s))
    && all_of ldh (c ∷ s)

-- The characters that `int(p, 16)` skips around a number: those of `isspace` but for 28 to 31.
abbrev pub int_space : ℕ → Bool
int_space c = is_space c && not (between 28 31 c)

abbrev pub hex_char : (ℕ → Bool) → ℕ → Bool
hex_char other_digit c =
    is_digit c || between 97 102 c || between 65 70 c || (leb 128 c && other_digit c)

-- `int(p, 16)` of two characters raises no `ValueError`: the number has two digits, or one digit and a
-- sign or a space in front of it, or one digit and a space behind it.
unfoldable pub is_valid_mac_byte : (ℕ → Bool) → Text → Bool
unfolding is_space
is_valid_mac_byte other_digit (a ∷ b ∷ []) =
    (hex_char other_digit b && (hex_char other_digit a || (a == 43) || (a == 45) || int_space a))
    || (hex_char other_digit a && int_space b)
is_valid_mac_byte other_digit _ = false

unfoldable pub validate_mac : (ℕ → Bool) → Text → Bool
unfolding is_valid_mac_byte split
validate_mac other_digit s =
    let parts = split 58 s in
    (length parts == 6) && every_part (is_valid_mac_byte other_digit) parts

-- `_VALIDATORS`: the predicate and the error code of a key.
abbrev pub validator : (ℕ → Bool) → Key → Text → Bool
validator other_digit ip = validate_ip
validator other_digit netmask = validate_ip
validator other_digit gateway = validate_ip
validator other_digit ntp_server = validate_ip
validator other_digit hostname = validate_hostname
validator other_digit mac = validate_mac other_digit
validator other_digit dhcp = validate_yesno

abbrev pub code_of : Key → Code
code_of ip = e_ip
code_of netmask = e_ip
code_of gateway = e_ip
code_of ntp_server = e_ip
code_of hostname = e_host
code_of mac = e_mac
code_of dhcp = e_line
