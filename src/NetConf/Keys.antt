-- ===== src/NetConf/Keys.antt =====
-- Comparing texts and keys, and looking keys up.
use ws_pi.Base.{◌≡◌, refl, sym, ◌∙◌, ap, arith, none, some, [], ◌∷◌, ◌++◌, Bool, true, false, ◌&&◌}
use ws_pi.Base.{◌==◌, Bool-cases, inl, inr}
use ws_pi.Base.Texts.{Text, same_text}
use ws_pi.NetConf.{Key, key_name, ip, netmask, gateway, hostname, ntp_server, mac, dhcp}
use ws_pi.NetConf.Lint.{Config, same_key, lookup, key_of}

pub both : (a b : Bool) → a && b ≡ true → (a ≡ true) × (b ≡ true)
both true b h = (refl, h)
both false b h = cc

pub same_text_refl : (s : Text) → same_text s s ≡ true
same_text_refl [] = refl
same_text_refl (c ∷ s) = ground (arith, same_text_refl s)

pub same_text-eq : (s t : Text) → same_text s t ≡ true → s ≡ t
same_text-eq [] [] h = refl
same_text-eq [] (d ∷ t) h = cc
same_text-eq (c ∷ s) [] h = cc
same_text-eq (c ∷ s) (d ∷ t) h =
    let (first, rest) = both (c == d) (same_text s t) h in
    let same : c ≡ d = ground (arith, first) in
    ap (λ x. x ∷ s) same ∙ ap (λ r. d ∷ r) (same_text-eq s t rest)

same_key_comm_true : (k l : Key) → same_key k l ≡ true → same_key l k ≡ true
same_key_comm_true k l h =
    let e : key_name k ≡ key_name l = same_text-eq (key_name k) (key_name l) h in
    ap (λ n. same_text n (key_name k)) (sym e) ∙ same_text_refl (key_name k)

pub same_key_comm_false : (k l : Key) → same_key k l ≡ false → same_key l k ≡ false
same_key_comm_false k l h = elim (Bool-cases (same_key l k)) [
  | inl e ↦ let bad : same_key k l ≡ true = same_key_comm_true l k e in cc
  | inr e ↦ e
]

key_of-key_name : (k : Key) → key_of (key_name k) ≡ some k
unfolding key_of
key_of-key_name ip = refl
key_of-key_name netmask = refl
key_of-key_name gateway = refl
key_of-key_name hostname = refl
key_of-key_name ntp_server = refl
key_of-key_name mac = refl
key_of-key_name dhcp = refl

pub same_key-eq : (k l : Key) → same_key k l ≡ true → k ≡ l
same_key-eq k l h =
    let same : some k ≡ some l =
      sym (key_of-key_name k)
      ∙ ap key_of (same_text-eq (key_name k) (key_name l) h)
      ∙ key_of-key_name l in
    cc

-- No key occurs twice.
abbrev pub Distinct : Config → Type 0
Distinct [] = Unit
Distinct ((k, value) ∷ config) = (lookup k config ≡ none) × Distinct config

pub lookup-snoc :
    (l k : Key) (value : Text) (config : Config)
    → lookup l config ≡ none
    → same_key l k ≡ false
    → lookup l (config ++ ((k, value) ∷ [])) ≡ none
unfolding lookup
lookup-snoc l k value [] h e = rw e
lookup-snoc l k value ((m, v) ∷ config) h e = elim (Bool-cases (same_key l m)) [
  | inl same ↦ absurd (ground (arith, h, same))
  | inr other ↦
      let rest : lookup l config ≡ none = ground (arith, h, other) in
      rw (other, lookup-snoc l k value config rest e)
]

pub lookup_other :
    (k l : Key) (v : Text) (config : Config)
    → lookup k ((l, v) ∷ config) ≡ none
    → (same_key l k ≡ false) × (lookup k config ≡ none)
unfolding lookup
lookup_other k l v config h = elim (Bool-cases (same_key k l)) [
  | inl same ↦ absurd (ground (arith, h, same))
  | inr other ↦ (same_key_comm_false k l other, ground (arith, h, other))
]

pub Distinct-snoc :
    (k : Key) (value : Text) (config : Config)
    → Distinct config
    → lookup k config ≡ none
    → Distinct (config ++ ((k, value) ∷ []))
unfolding lookup
Distinct-snoc k value [] d h = (refl, tt)
Distinct-snoc k value ((l, v) ∷ config) d h =
    let (other, rest) = lookup_other k l v config h in
    (lookup-snoc l k value config d.0 other, Distinct-snoc k value config d.1 rest)
