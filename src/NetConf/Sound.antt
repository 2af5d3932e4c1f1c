-- ===== src/NetConf/Sound.antt =====
-- What a linted configuration holds.
use ws_pi.Base.{
  ℕ, suc, ◌≡◌, refl, sym, ap, arith, Option, none, some, List, [], ◌∷◌, ◌++◌, Bool, true, ◌&&◌,
}
use ws_pi.Base.{leb, if◌then◌else◌, Bool-cases, Option-cases, ◌⊎◌, inl, inr, All, All-append}
use ws_pi.Base.Texts.{Text, split, strip, occurs, before, behind}
use ws_pi.NetConf.{Key, ip, netmask, gateway, hostname, dhcp, yes, LintError, validator}
use ws_pi.NetConf.Lint.{
  Config, lookup, same_key, validate_value, classify_kv, parse_line, parse_stripped,
  strip_inline_comment, key_of, says_yes, missing, check_required, required_collected, is_e_key,
  collect, lint_lines, conclude, lint_from, lint, MagicLine, at_line, no_magic, check_magic,
  is_empty,
}
use ws_pi.NetConf.Keys.{same_text-eq, same_key-eq, Distinct, Distinct-snoc}

pub append-empty : (xs ys : List LintError) → is_empty (xs ++ ys) ≡ true → (xs ≡ []) × (ys ≡ [])
append-empty [] [] h = (refl, refl)
append-empty [] (y ∷ ys) h = cc
append-empty (x ∷ xs) ys h = cc

module _ (other_digit : ℕ → Bool) where
  -- The validator of the key accepts the value.
  abbrev Accepted : Key × Text → Type 0
  Accepted (k, value) = validator other_digit k value ≡ true

  -- Every value is valid, and no key occurs twice.
  abbrev pub IsConsistent : Config → Type 0
  IsConsistent config = All Accepted config × Distinct config

  classify_kv-IsConsistent :
      (lineno : ℕ) (k : Option Key) (value : Text) (config : Config)
      → IsConsistent config
      → IsConsistent (classify_kv other_digit lineno k value config).1
  unfolding classify_kv validate_value
  classify_kv-IsConsistent lineno none value config h = h
  classify_kv-IsConsistent lineno (some k) value config h = elim (Option-cases (lookup k config)) [
    | inr (old, e) ↦ rw e h
    | inl e ↦ elim (Bool-cases (validator other_digit k value)) [
      | inr bad ↦ rw (e, bad) h
      | inl good ↦
          let added : IsConsistent (config ++ ((k, value) ∷ [])) =
            (All-append Accepted config _ h.0 (good, tt), Distinct-snoc k value config h.1 e) in
          rw (e, good) added
    ]
  ]

  parse_stripped-IsConsistent :
      (lineno : ℕ) (line : Text) (config : Config)
      → IsConsistent config
      → IsConsistent (parse_stripped other_digit lineno line config).1
  parse_stripped-IsConsistent lineno [] config h = h
  parse_stripped-IsConsistent lineno (c ∷ s) config h = elim (Bool-cases (occurs 61 (c ∷ s))) [
    | inr e ↦ rw e h
    | inl e ↦
        let kept =
          classify_kv-IsConsistent lineno (key_of (strip (before 61 (c ∷ s))))
            (strip (behind 61 (c ∷ s))) config h in
        rw e kept
  ]

  parse_line-IsConsistent :
      (lineno : ℕ) (raw : Text) (config : Config)
      → IsConsistent config
      → IsConsistent (parse_line other_digit lineno raw config).1
  unfolding parse_line
  parse_line-IsConsistent lineno raw config h =
      parse_stripped-IsConsistent lineno (strip (strip_inline_comment raw)) config h

  collect-IsConsistent :
      (outcome : Option LintError × Config) (rest : Config × List LintError)
      → IsConsistent outcome.1
      → IsConsistent rest.0
      → IsConsistent (collect outcome rest).0
  collect-IsConsistent (none, config) rest h k = k
  collect-IsConsistent (some error, config) rest h k =
      elim (Bool-cases (is_e_key error.code && required_collected config)) [
        | inl e ↦ rw e h
        | inr e ↦ rw e k
      ]

  lint_lines-IsConsistent :
      (n i : ℕ) (lines : List Text) (config : Config)
      → IsConsistent config
      → IsConsistent (lint_lines other_digit n i lines config).0
  unfolding lint_lines
  lint_lines-IsConsistent n i [] config h = h
  lint_lines-IsConsistent n i (raw ∷ lines) config h =
      let outcome = if leb i n then (none, config) else parse_line other_digit i raw config in
      let kept : IsConsistent outcome.1 = elim (Bool-cases (leb i n)) [
        | inl e ↦ rw e h
        | inr e ↦ rw e (parse_line-IsConsistent i raw config h)
      ] in
      collect-IsConsistent outcome _ kept (lint_lines-IsConsistent n (suc i) lines outcome.1 kept)

  -- The key has a value, and its validator accepts it.
  abbrev pub Has : Config → Key → Type 0
  Has config k =
      (value : Text) × (lookup k config ≡ some value) × (validator other_digit k value ≡ true)

  -- A host name and, unless the addresses come by DHCP, the three addresses.
  abbrev pub IsUsable : Config → Type 0
  IsUsable config =
      Has config hostname
      × ((lookup dhcp config ≡ some yes)
          ⊎ (Has config ip × Has config netmask × Has config gateway))

  lookup-Accepted :
      (k : Key) (config : Config) (value : Text)
      → All Accepted config
      → lookup k config ≡ some value
      → validator other_digit k value ≡ true
  unfolding lookup
  lookup-Accepted k [] value h e = cc
  lookup-Accepted k ((l, v) ∷ config) value h e = elim (Bool-cases (same_key k l)) [
    | inl same ↦
        let now : v ≡ value = ground (arith, e, same) in rw (same_key-eq k l same, sym now) h.0
    | inr other ↦ lookup-Accepted k config value h.1 (ground (arith, e, other))
  ]

  missing-Has :
      (config : Config) (k : Key) (keys : List Key)
      → All Accepted config
      → missing config (k ∷ keys) ≡ []
      → Has config k × (missing config keys ≡ [])
  missing-Has config k keys h e = elim (Option-cases (lookup k config)) [
    | inl absent ↦ absurd (ground (arith, e, absent))
    | inr (value, found) ↦
        ((value, found, lookup-Accepted k config value h found), ground (arith, e, found))
  ]

  says_yes-eq : (found : Option Text) → says_yes found ≡ true → found ≡ some yes
  says_yes-eq none h = cc
  says_yes-eq (some value) h = ap some (same_text-eq value yes h)

  check_required-IsUsable :
      (config : Config) → All Accepted config → check_required config ≡ [] → IsUsable config
  unfolding check_required
  check_required-IsUsable config h e = elim (Bool-cases (says_yes (lookup dhcp config))) [
    | inl relaxed ↦
        let empty : missing config (hostname ∷ []) ≡ [] = ground (arith, e, relaxed) in
        ((missing-Has config hostname [] h empty).0, inl (says_yes-eq _ relaxed))
    | inr strict ↦
        let empty : missing config (ip ∷ netmask ∷ gateway ∷ hostname ∷ []) ≡ [] =
          ground (arith, e, strict) in
        let (has_ip, e1) = missing-Has config ip (netmask ∷ gateway ∷ hostname ∷ []) h empty in
        let (has_netmask, e2) = missing-Has config netmask (gateway ∷ hostname ∷ []) h e1 in
        let (has_gateway, e3) = missing-Has config gateway (hostname ∷ []) h e2 in
        ((missing-Has config hostname [] h e3).0, inr (has_ip, has_netmask, has_gateway))
  ]

  conclude-IsUsable :
      (found : Config × List LintError)
      → IsConsistent found.0
      → (conclude found).ok ≡ true
      → ((conclude found).errors ≡ []) × IsUsable found.0
  conclude-IsUsable (config, errors) h e =
      let (none_found, none_missing) = append-empty errors (check_required config) e in
      (rw (none_found, none_missing), check_required-IsUsable config h.0 none_missing)

  lint_from-IsUsable :
      (lines : List Text) (at : MagicLine)
      → IsConsistent (lint_from other_digit lines at).config
        × ((lint_from other_digit lines at).ok ≡ true
            → ((lint_from other_digit lines at).errors ≡ [])
              × IsUsable (lint_from other_digit lines at).config)
  lint_from-IsUsable lines (no_magic error) = ((tt, tt), λ bad. cc)
  lint_from-IsUsable lines (at_line n) =
      let kept = lint_lines-IsConsistent n 1 lines [] (tt, tt) in
      (kept, conclude-IsUsable (lint_lines other_digit n 1 lines []) kept)

-- If `lint` finds a text ok then there are no errors, every value of the configuration that it returns
-- is one that the validator of its key accepts, no key occurs twice, and the configuration has a host
-- name, and an address, a netmask and a gateway unless it says `dhcp=yes`.
pub lint-IsUsable :
    (other_digit : ℕ → Bool) (text : Text)
    → (lint other_digit text).ok ≡ true
    → ((lint other_digit text).errors ≡ [])
      × IsConsistent other_digit (lint other_digit text).config
      × IsUsable other_digit (lint other_digit text).config
unfolding lint
lint-IsUsable other_digit text h =
    let (kept, usable) =
      lint_from-IsUsable other_digit (split 10 text) (check_magic 1 (split 10 text)) in
    let (none_found, has) = usable h in (none_found, kept, has)
