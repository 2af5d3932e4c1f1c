-- ===== src/NetConf/Addresses.antt =====
-- The addresses that the linter accepts.
use ws_pi.Base.{ℕ, ◌≡◌, ◌↔◌, sym, ◌∙◌, ap, arith, List, [], ◌∷◌, ◌++◌, true}
use ws_pi.Base.{length, ltb, ◌==◌, Bool-cases, inl, inr}
use ws_pi.Base.Bytes.{IpAddr, IsIpAddr}
use ws_pi.Base.Texts.{Text, split}
use ws_pi.Base.Texts.Split.{join_with, Free, join_with-split, split-Free, split-append}
use ws_pi.NetConf.{is_valid_octet, every_part, validate_ip}
use ws_pi.NetConf.Keys.{both}
use ws_pi.NetConf.Octets.{decimal, decimal-is_valid_octet, is_valid_octet-decimal}

-- Four decimal numbers and the dots between them.
abbrev pub dotted : IpAddr → Text
dotted ip = decimal ip.a ++ (46 ∷ (decimal ip.b ++ (46 ∷ (decimal ip.c ++ (46 ∷ decimal ip.d)))))

decimal-Free : (n : ℕ) → Free 46 (decimal n)
decimal-Free n = elim (Bool-cases (ltb n 10)) [
  | inl one ↦ rw one (ground arith)
  | inr more ↦ elim (Bool-cases (ltb n 100)) [
    | inl two ↦ rw (more, two) (ground arith)
    | inr three ↦ rw (more, three) (ground arith)
  ]
]

pub split-dotted :
    (ip : IpAddr)
    → split 46 (dotted ip) ≡ decimal ip.a ∷ decimal ip.b ∷ decimal ip.c ∷ decimal ip.d ∷ []
split-dotted ip =
    split-append 46 (decimal ip.a) _ (decimal-Free ip.a)
    ∙ ap (λ t. decimal ip.a ∷ t)
        (split-append 46 (decimal ip.b) _ (decimal-Free ip.b)
          ∙ ap (λ t. decimal ip.b ∷ t)
              (split-append 46 (decimal ip.c) _ (decimal-Free ip.c)
                ∙ ap (λ t. decimal ip.c ∷ t) (split-Free 46 (decimal ip.d) (decimal-Free ip.d))))

pub validate_ip-dotted : (ip : IpAddr) → IsIpAddr ip → validate_ip (dotted ip) ≡ true
unfolding validate_ip
validate_ip-dotted ip (ha, hb, hc, hd) = rw (
  split-dotted ip,
  decimal-is_valid_octet ip.a (omega arith),
  decimal-is_valid_octet ip.b (omega arith),
  decimal-is_valid_octet ip.c (omega arith),
  decimal-is_valid_octet ip.d (omega arith),
)

four_parts :
    {p q r s p' q' r' s' : Text}
    → p ≡ p'
    → q ≡ q'
    → r ≡ r'
    → s ≡ s'
    → join_with 46 (p ∷ q ∷ r ∷ s ∷ []) ≡ p' ++ (46 ∷ (q' ++ (46 ∷ (r' ++ (46 ∷ s')))))
four_parts ep eq er es = rw (ep, eq, er, es)

read_parts :
    (parts : List Text)
    → length parts == 4 ≡ true
    → every_part is_valid_octet parts ≡ true
    → (ip : IpAddr) × IsIpAddr ip × (join_with 46 parts ≡ dotted ip)
read_parts [] l h = absurd (ground (arith, l))
read_parts (p ∷ []) l h = absurd (ground (arith, l))
read_parts (p ∷ q ∷ []) l h = absurd (ground (arith, l))
read_parts (p ∷ q ∷ r ∷ []) l h = absurd (ground (arith, l))
read_parts (p ∷ q ∷ r ∷ s ∷ t ∷ ps) l h = absurd (ground (arith, l))
read_parts (p ∷ q ∷ r ∷ s ∷ []) l h =
    let (hp, h1) = both (is_valid_octet p) _ h in
    let (hq, h2) = both (is_valid_octet q) _ h1 in
    let (hr, h3) = both (is_valid_octet r) _ h2 in
    let (a, ha, ea) = is_valid_octet-decimal p hp in
    let (b, hb, eb) = is_valid_octet-decimal q hq in
    let (c, hc, ec) = is_valid_octet-decimal r hr in
    let (d, hd, ed) = is_valid_octet-decimal s (both (is_valid_octet s) _ h3).0 in
    (
      record { a = a; b = b; c = c; d = d },
      (omega arith, omega arith, omega arith, omega arith),
      four_parts ea eb ec ed,
    )

validate_ip-read : (s : Text) → validate_ip s ≡ true → (ip : IpAddr) × IsIpAddr ip × (s ≡ dotted ip)
unfolding validate_ip
validate_ip-read s h =
    let (four, octets) = both (length (split 46 s) == 4) _ h in
    let (ip, fits, e) = read_parts (split 46 s) four octets in
    (ip, fits, sym (join_with-split 46 s) ∙ e)

-- `_validate_ip` accepts exactly the texts of four decimal numbers below 256, written without leading
-- zeros and separated by dots.
pub validate_ip-iff-dotted :
    (s : Text) → (validate_ip s ≡ true) ↔ ((ip : IpAddr) × IsIpAddr ip × (s ≡ dotted ip))
validate_ip-iff-dotted s =
    (validate_ip-read s, λ (ip, fits, e). ap validate_ip e ∙ validate_ip-dotted ip fits)
