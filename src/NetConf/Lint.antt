-- ===== src/NetConf/Lint.antt =====
-- scripts/lint_network_conf.py: the lines of the file, and `lint`.
use ws_pi.Base.{ℕ, suc, Option, none, some, List, [], ◌∷◌, ◌++◌, Bool, true, false, ◌&&◌, not}
use ws_pi.Base.{leb, ◌==◌, if◌then◌else◌}
use ws_pi.Base.Texts.{Text, is_space, same_text, split, strip, before, behind, occurs}
use ws_pi.NetConf.{
  Key, ip, netmask, gateway, hostname, ntp_server, mac, dhcp, key_name, magic, yes, Code, e_magic,
  e_line, e_key, e_dup, e_req, LintError, validator, code_of,
}

-- The text up to a `#` that stands at the start or behind a space. `at_start` tells whether the next
-- character stands there.
unfoldable pub cut_comment : Bool → Text → Text
unfolding is_space
cut_comment at_start [] = []
cut_comment at_start (c ∷ s) =
    let rest = cut_comment (is_space c) s in if (c == 35) && at_start then [] else c ∷ rest

abbrev pub strip_inline_comment : Text → Text
strip_inline_comment s = cut_comment true s

abbrev pub strip_magic_trailing_comment : Text → Text
strip_magic_trailing_comment [] = []
strip_magic_trailing_comment (c ∷ s) = c ∷ cut_comment (is_space c) s

-- The number of the magic line, or the error.
pub data MagicLine : Type 0 where
  at_line : ℕ → MagicLine
  no_magic : LintError → MagicLine

abbrev pub judge_magic : ℕ → Text → MagicLine → MagicLine
judge_magic i [] rest = rest
judge_magic i (c ∷ s) rest =
    if same_text (c ∷ s) magic then at_line i else no_magic (record { line = i; code = e_magic })

-- The lines from the number `i` on.
unfoldable pub check_magic : ℕ → List Text → MagicLine
unfolding cut_comment strip
check_magic i [] = no_magic (record { line = 0; code = e_magic })
check_magic i (raw ∷ lines) =
    judge_magic i (strip (strip_magic_trailing_comment raw)) (check_magic (suc i) lines)

-- The dictionary in the order of insertion.
abbrev pub Config : Type 0
Config = List (Key × Text)

abbrev pub same_key : Key → Key → Bool
same_key k l = same_text (key_name k) (key_name l)

unfoldable pub lookup : Key → Config → Option Text
lookup k [] = none
lookup k ((l, value) ∷ config) =
    let rest = lookup k config in if same_key k l then some value else rest

abbrev pub is_some : Option Text → Bool
is_some none = false
is_some (some value) = true

-- The key of a name, where `key in ALL_KEYS`.
unfoldable pub key_of : Text → Option Key
key_of name = find (ip ∷ netmask ∷ gateway ∷ hostname ∷ ntp_server ∷ mac ∷ dhcp ∷ [])
  where
    find : List Key → Option Key
    find [] = none
    find (k ∷ keys) = let rest = find keys in if same_text name (key_name k) then some k else rest

unfoldable pub validate_value : (ℕ → Bool) → ℕ → Key → Text → Option LintError
validate_value other_digit lineno k value =
    if validator other_digit k value
    then none
    else some (record { line = lineno; code = code_of k })

-- The error of an assignment, or the configuration with the assignment.
unfoldable pub classify_kv : (ℕ → Bool) → ℕ → Option Key → Text → Config → Option LintError × Config
unfolding validate_value lookup
classify_kv other_digit lineno none value config =
    (some (record { line = lineno; code = e_key }), config)
classify_kv other_digit lineno (some k) value config =
    if is_some (lookup k config)
    then (some (record { line = lineno; code = e_dup }), config)
    else stored (validate_value other_digit lineno k value)
  where
    stored : Option LintError → Option LintError × Config
    stored none = (none, config ++ ((k, value) ∷ []))
    stored (some error) = (some error, config)

abbrev pub parse_stripped : (ℕ → Bool) → ℕ → Text → Config → Option LintError × Config
parse_stripped other_digit lineno [] config = (none, config)
parse_stripped other_digit lineno (c ∷ s) config =
    if not (occurs 61 (c ∷ s))
    then (some (record { line = lineno; code = e_line }), config)
    else classify_kv other_digit lineno (key_of (strip (before 61 (c ∷ s))))
        (strip (behind 61 (c ∷ s))) config

unfoldable pub parse_line : (ℕ → Bool) → ℕ → Text → Config → Option LintError × Config
parse_line other_digit lineno raw config =
    parse_stripped other_digit lineno (strip (strip_inline_comment raw)) config

-- `config.get("dhcp") == "yes"`
abbrev pub says_yes : Option Text → Bool
says_yes none = false
says_yes (some value) = same_text value yes

abbrev pub required_keys : Config → List Key
required_keys config =
    if says_yes (lookup dhcp config) then hostname ∷ [] else ip ∷ netmask ∷ gateway ∷ hostname ∷ []

abbrev pub missing : Config → List Key → List LintError
missing config [] = []
missing config (k ∷ keys) =
    let rest = missing config keys in
    if is_some (lookup k config) then rest else record { line = 0; code = e_req } ∷ rest

unfoldable pub check_required : Config → List LintError
unfolding lookup
check_required config = missing config (required_keys config)

abbrev pub all_present : Config → List Key → Bool
all_present config [] = true
all_present config (k ∷ keys) = is_some (lookup k config) && all_present config keys

unfoldable pub required_collected : Config → Bool
unfolding lookup
required_collected config = all_present config (required_keys config)

abbrev pub is_e_key : Code → Bool
is_e_key e_key = true
is_e_key _ = false

-- The outcome of a line, and the loop over the lines behind it: an unknown key behind the required ones
-- ends the loop.
abbrev pub collect : Option LintError × Config → Config × List LintError → Config × List LintError
collect (none, config) rest = rest
collect (some error, config) rest =
    if is_e_key error.code && required_collected config
    then (config, [])
    else (rest.0, error ∷ rest.1)

-- The loop of `lint`, from the line with the number `i` on.
unfoldable pub lint_lines : (ℕ → Bool) → ℕ → ℕ → List Text → Config → Config × List LintError
unfolding parse_line required_collected
lint_lines other_digit magic_lineno i [] config = (config, [])
lint_lines other_digit magic_lineno i (raw ∷ lines) config =
    let outcome =
      if leb i magic_lineno then (none, config) else parse_line other_digit i raw config in
    collect outcome (lint_lines other_digit magic_lineno (suc i) lines outcome.1)

pub record LintResult : Type 0 where
  pub ok : Bool
  pub config : Config
  pub errors : List LintError

abbrev pub is_empty : List LintError → Bool
is_empty [] = true
is_empty (error ∷ errors) = false

abbrev pub conclude : Config × List LintError → LintResult
conclude (config, errors) =
    let all = errors ++ check_required config in
    record { ok = is_empty all; config = config; errors = all }

abbrev pub lint_from : (ℕ → Bool) → List Text → MagicLine → LintResult
lint_from other_digit lines (no_magic error) = record {
  ok = false;
  config = [];
  errors = error ∷ [];
}
lint_from other_digit lines (at_line n) = conclude (lint_lines other_digit n 1 lines [])

unfoldable pub lint : (ℕ → Bool) → Text → LintResult
unfolding split check_magic lint_lines check_required
lint other_digit text =
    let lines = split 10 text in lint_from other_digit lines (check_magic 1 lines)
