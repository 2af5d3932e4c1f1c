-- ===== src/Http/Request.antt =====
-- The texts that the automaton accepts, as a grammar of the request head.
pub mod Leave
pub mod Sound
pub mod Complete
use ws_pi.Base.{ℕ, ◌≡◌, List, [], ◌∷◌, ◌++◌, All, Bool, true, not, ◌&&◌, ◌||◌, ◌==◌}
use ws_pi.Http.{
  CharClass, class_index, cc_alpha, cc_digit, cc_sp, cc_cr, cc_lf, cc_colon, cc_slash, cc_dot,
  cc_other,
}
use ws_pi.Http.Cells.{is_class}

abbrev pub is_alpha : CharClass → Bool
is_alpha c = is_class c cc_alpha

abbrev pub value_byte : CharClass → Bool
value_byte c = not (is_class c cc_cr || is_class c cc_lf)

abbrev pub uri_byte : CharClass → Bool
uri_byte c = value_byte c && not (is_class c cc_sp)

abbrev pub name_byte : CharClass → Bool
name_byte c = uri_byte c && not (is_class c cc_colon)

abbrev pub Only : (CharClass → Bool) → List CharClass → Type 0
Only p cs = All (λ c. p c ≡ true) cs

-- A header field: a letter, the rest of its name, and its value.
pub record Header : Type 0 where
  pub name : List CharClass
  pub value : List CharClass
  pub name_only : Only name_byte name
  pub value_only : Only value_byte value

abbrev pub header_line : Header → List CharClass → List CharClass
header_line h rest = cc_alpha ∷ (h.name ++ (cc_colon ∷ (h.value ++ (cc_cr ∷ cc_lf ∷ rest))))

abbrev pub header_lines : List Header → List CharClass → List CharClass
header_lines [] rest = rest
header_lines (h ∷ hs) rest = header_line h (header_lines hs rest)

-- A space, four letters, a slash, a digit, a dot, a digit and the line's end.
abbrev pub version_line : List CharClass → List CharClass
version_line rest =
    cc_sp ∷ cc_alpha ∷ cc_alpha ∷ cc_alpha ∷ cc_alpha ∷ cc_slash ∷ cc_digit ∷ cc_dot ∷ cc_digit
    ∷ cc_cr ∷ cc_lf ∷ rest

-- The text is a request head, and what follows it: a word of letters, which may be empty, a target of
-- at least one character, the version, header fields and an empty line.
pub record Request (text : List CharClass) : Type 0 where
  pub method : List CharClass
  pub target_start : CharClass
  pub target : List CharClass
  pub headers : List Header
  pub body : List CharClass
  pub method_only : Only is_alpha method
  pub start_fits : uri_byte target_start ≡ true
  pub target_only : Only uri_byte target
  pub spells :
      text
      ≡ method
        ++ (cc_sp
            ∷ target_start
            ∷ (target ++ version_line (header_lines headers (cc_cr ∷ cc_lf ∷ body))))
