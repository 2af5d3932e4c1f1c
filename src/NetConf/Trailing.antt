-- ===== src/NetConf/Trailing.antt =====
-- Lines behind a complete file: the rule about an unknown key behind the required ones.
use ws_pi.Base.{
  ℕ, suc, ◌+◌, ◌<◌, ◌≡◌, refl, sym, ◌∙◌, ap, arith, Option, none, some, List, [], ◌∷◌, ◌++◌, Bool,
  true, false, ◌&&◌,
}
use ws_pi.Base.{length, leb, if◌then◌else◌, Bool-cases, inl, inr}
use ws_pi.Base.Texts.{Text, same_text, split, strip, occurs, before, behind}
use ws_pi.Base.Texts.Split.{Free, split-append_sep, split-append}
use ws_pi.NetConf.{Key, LintError, e_key, e_magic, magic}
use ws_pi.NetConf.Sound.{append-empty}
use ws_pi.NetConf.Lint.{
  Config, lookup, is_some, classify_kv, parse_line, parse_stripped, strip_inline_comment, key_of,
  required_keys, missing, all_present, check_required, required_collected, is_e_key, collect,
  lint_lines, conclude, lint_from, lint, MagicLine, at_line, no_magic, check_magic, judge_magic,
  strip_magic_trailing_comment,
}

-- The line assigns to a key that the format does not know.
abbrev pub Unknown : Text → Type 0
Unknown line =
    (occurs 61 (strip (strip_inline_comment line)) ≡ true)
    × (key_of (strip (before 61 (strip (strip_inline_comment line)))) ≡ none)

classify_kv-none :
    (other_digit : ℕ → Bool) (i : ℕ) (k : Option Key) (value : Text) (config : Config)
    → k ≡ none
    → classify_kv other_digit i k value config ≡ (some (record { line = i; code = e_key }), config)
unfolding classify_kv
classify_kv-none other_digit i k value config h = rw h

nothing_occurs : {Goal : Type 0} → occurs 61 [] ≡ true → Goal
unfolding occurs
nothing_occurs h = cc

parse_stripped-Unknown :
    (other_digit : ℕ → Bool) (i : ℕ) (stripped : Text) (config : Config)
    → occurs 61 stripped ≡ true
    → key_of (strip (before 61 stripped)) ≡ none
    → parse_stripped other_digit i stripped config
      ≡ (some (record { line = i; code = e_key }), config)
parse_stripped-Unknown other_digit i [] config has unknown = nothing_occurs has
parse_stripped-Unknown other_digit i (c ∷ s) config has unknown =
    rw has (classify_kv-none other_digit i _ (strip (behind 61 (c ∷ s))) config unknown)

parse_line-Unknown :
    (other_digit : ℕ → Bool) (i : ℕ) (line : Text) (config : Config)
    → Unknown line
    → parse_line other_digit i line config ≡ (some (record { line = i; code = e_key }), config)
unfolding parse_line
parse_line-Unknown other_digit i line config (has, unknown) =
    parse_stripped-Unknown other_digit i (strip (strip_inline_comment line)) config has unknown

missing-all_present :
    (config : Config) (keys : List Key) → missing config keys ≡ [] → all_present config keys ≡ true
missing-all_present config [] h = refl
missing-all_present config (k ∷ keys) h = elim (Bool-cases (is_some (lookup k config))) [
  | inl found ↦
      let rest : missing config keys ≡ [] = ground (arith, h, found) in
      rw (found, missing-all_present config keys rest)
  | inr absent ↦ absurd (ground (arith, h, absent))
]

check_required-collected :
    (config : Config) → check_required config ≡ [] → required_collected config ≡ true
unfolding check_required required_collected
check_required-collected config h = missing-all_present config (required_keys config) h

-- The magic line is found in the first lines.
judge_magic-found :
    (i n : ℕ) (line : Text) (rest rest' : MagicLine)
    → judge_magic i line rest ≡ at_line n
    → (rest ≡ at_line n → rest' ≡ at_line n)
    → judge_magic i line rest' ≡ at_line n
judge_magic-found i n [] rest rest' h more = more h
judge_magic-found i n (c ∷ s) rest rest' h more = h

check_magic-append :
    (i n : ℕ) (xs ys : List Text)
    → check_magic i xs ≡ at_line n
    → check_magic i (xs ++ ys) ≡ at_line n
unfolding check_magic
check_magic-append i n [] ys h = cc
check_magic-append i n (x ∷ xs) ys h =
    judge_magic-found i n (strip (strip_magic_trailing_comment x)) (check_magic (suc i) xs)
      (check_magic (suc i) (xs ++ ys)) h (check_magic-append (suc i) n xs ys)

chosen-lt :
    (is_magic : Bool) (i n k : ℕ) (error : LintError)
    → i < k
    → (if is_magic then at_line i else no_magic error) ≡ at_line n
    → n < k
chosen-lt true i n k error l h = let same : i ≡ n = cc in omega arith
chosen-lt false i n k error l h = cc

judge_magic-lt :
    (i n k : ℕ) (line : Text) (rest : MagicLine)
    → i < k
    → judge_magic i line rest ≡ at_line n
    → (rest ≡ at_line n → n < k)
    → n < k
judge_magic-lt i n k [] rest l h more = more h
judge_magic-lt i n k (c ∷ s) rest l h more =
    chosen-lt (same_text (c ∷ s) magic) i n k (record { line = i; code = e_magic }) l h

check_magic-lt : (i n : ℕ) (xs : List Text) → check_magic i xs ≡ at_line n → n < i + length xs
unfolding check_magic
check_magic-lt i n [] h = cc
check_magic-lt i n (x ∷ xs) h =
    judge_magic-lt i n (i + length (x ∷ xs)) (strip (strip_magic_trailing_comment x))
      (check_magic (suc i) xs) (omega arith) h
      (λ e. let ih = check_magic-lt (suc i) n xs e in omega arith)

collect-some :
    (soft : Bool) (config : Config) (error : LintError) (rest rest' found : Config × List LintError)
    → (if soft then (config, []) else (rest.0, error ∷ rest.1)) ≡ found
    → found.1 ≡ []
    → (if soft then (config, []) else (rest'.0, error ∷ rest'.1)) ≡ found
collect-some true config error rest rest' found h e = h
collect-some false config error rest rest' found h e =
    let bad : error ∷ rest.1 ≡ [] = ap (λ t. t.1) h ∙ e in cc

module _ (other_digit : ℕ → Bool) (garbage : Text) (unknown : Unknown garbage) where
  -- One line and the lines behind it, with and without more lines.
  collect-same :
      (outcome : Option LintError × Config) (rest rest' found : Config × List LintError)
      → collect outcome rest ≡ found
      → found.1 ≡ []
      → (rest ≡ found → rest' ≡ found)
      → collect outcome rest' ≡ found
  collect-same (none, config) rest rest' found h e more = more h
  collect-same (some error, config) rest rest' found h e more =
      collect-some (is_e_key error.code && required_collected config) config error rest rest' found
        h e

  lint_lines-append :
      (n i : ℕ) (xs ys : List Text) (config : Config) (found : Config)
      → lint_lines other_digit n i xs config ≡ (found, [])
      → required_collected found ≡ true
      → n < i + length xs
      → lint_lines other_digit n i (xs ++ (garbage ∷ ys)) config ≡ (found, [])
  unfolding lint_lines
  lint_lines-append n i [] ys config found h r l =
      let later : leb i n ≡ false = ground arith in
      let same : config ≡ found = ap (λ t. t.0) h in
      let complete : required_collected config ≡ true = ap required_collected same ∙ r in
      rw (later, parse_line-Unknown other_digit i garbage config unknown, complete)
        (ap (λ c. (c, [])) same)
  lint_lines-append n i (x ∷ xs) ys config found h r l =
      let outcome = if leb i n then (none, config) else parse_line other_digit i x config in
      collect-same outcome (lint_lines other_digit n (suc i) xs outcome.1) _ (found, []) h refl
        (λ e. lint_lines-append n (suc i) xs ys outcome.1 found e r (omega arith))

  lint_from-append :
      (xs ys : List Text) (magic_line : MagicLine)
      → check_magic 1 xs ≡ magic_line
      → (lint_from other_digit xs magic_line).ok ≡ true
      → lint_from other_digit (xs ++ (garbage ∷ ys)) (check_magic 1 (xs ++ (garbage ∷ ys)))
        ≡ lint_from other_digit xs magic_line
  lint_from-append xs ys (no_magic error) m h = cc
  lint_from-append xs ys (at_line n) m h =
      let found = lint_lines other_digit n 1 xs [] in
      let (none_found, none_missing) = append-empty found.1 (check_required found.0) h in
      let clean : found ≡ (found.0, []) = ap (λ errors. (found.0, errors)) none_found in
      let complete : required_collected found.0 ≡ true =
        check_required-collected found.0 none_missing in
      let more = lint_lines-append n 1 xs ys [] found.0 clean complete (check_magic-lt 1 n xs m) in
      ap (lint_from other_digit (xs ++ (garbage ∷ ys))) (check_magic-append 1 n xs (garbage ∷ ys) m)
      ∙ ap conclude (more ∙ sym clean)

-- If a text is ok, then so is every longer one whose next line assigns to an unknown key: whatever
-- follows that line, `lint` returns the same result.
pub lint-trailing :
    (other_digit : ℕ → Bool) (text garbage rest : Text)
    → (lint other_digit text).ok ≡ true
    → Free 10 garbage
    → Unknown garbage
    → lint other_digit (text ++ (10 ∷ (garbage ++ (10 ∷ rest)))) ≡ lint other_digit text
unfolding lint
lint-trailing other_digit text garbage rest h one_line unknown =
    let lines : split 10 (text ++ (10 ∷ (garbage ++ (10 ∷ rest))))
        ≡ split 10 text ++ (garbage ∷ split 10 rest) =
      split-append_sep 10 text (garbage ++ (10 ∷ rest))
      ∙ ap (λ t. split 10 text ++ t) (split-append 10 garbage rest one_line) in
    ap (λ ls. lint_from other_digit ls (check_magic 1 ls)) lines
    ∙ lint_from-append other_digit garbage unknown (split 10 text) (split 10 rest)
        (check_magic 1 (split 10 text)) refl h
