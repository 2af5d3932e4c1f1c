-- ===== src/Http/Request/Sound.antt =====
-- An accepted text is a request.
use ws_pi.Base.{
  ℕ, zero, suc, ◌≤◌, ◌<◌, ◌≡◌, ◌⊎◌, inl, inr, refl, ◌∙◌, ap, arith, List, [], ◌∷◌, ◌++◌,
}
use ws_pi.Base.{length, length-append, true}
use ws_pi.Http.{
  CharClass, table, row, s_method, s_m_sp, s_uri, s_u_sp, s_vh, s_vt1, s_vt2, s_vp, s_vslash,
  s_vmaj, s_vdot, s_vmin, s_rl_cr, s_hdr_st, s_hdr_nm, s_hdr_vl, s_hdr_cr, s_end_cr, s_done,
  cc_alpha, cc_digit, cc_sp, cc_cr, cc_lf, cc_colon, cc_slash, cc_dot, cc_other,
}
use ws_pi.Http.Run.{run}
use ws_pi.Http.Request.{
  Header, Request, header_line, header_lines, version_line, is_alpha, uri_byte, name_byte,
  value_byte,
}
use ws_pi.Http.Request.Leave.{leave, pass, not_accepted}

-- One character, and then the rest of the text.
tail : {c : CharClass} {cs ds es : List CharClass} → cs ≡ c ∷ ds → ds ≡ es → cs ≡ c ∷ es
tail {c} e f = e ∙ ap (λ t. c ∷ t) f

-- The first character of the target.
target_first :
    (cs : List CharClass)
    → run s_m_sp cs ≡ s_done
    → (c : CharClass) × (rest : List CharClass) × (uri_byte c ≡ true)
      × (cs ≡ c ∷ rest)
      × (run s_uri rest ≡ s_done)
unfolding run table row
target_first [] h = cc
target_first (cc_alpha ∷ cs) h = (cc_alpha, cs, refl, refl, h)
target_first (cc_digit ∷ cs) h = (cc_digit, cs, refl, refl, h)
target_first (cc_colon ∷ cs) h = (cc_colon, cs, refl, refl, h)
target_first (cc_slash ∷ cs) h = (cc_slash, cs, refl, refl, h)
target_first (cc_dot ∷ cs) h = (cc_dot, cs, refl, refl, h)
target_first (cc_other ∷ cs) h = (cc_other, cs, refl, refl, h)
target_first (cc_sp ∷ cs) h = not_accepted _ cs refl h
target_first (cc_cr ∷ cs) h = not_accepted _ cs refl h
target_first (cc_lf ∷ cs) h = not_accepted _ cs refl h

-- A header field begins, or the empty line.
abbrev FieldOrEnd : List CharClass → Type 0
FieldOrEnd cs =
    (rest : List CharClass) × ((cs ≡ cc_alpha ∷ rest) × (run s_hdr_nm rest ≡ s_done)
      ⊎ (cs ≡ cc_cr ∷ rest) × (run s_end_cr rest ≡ s_done))

field_or_end : (cs : List CharClass) → run s_hdr_st cs ≡ s_done → FieldOrEnd cs
unfolding run table row
field_or_end [] h = cc
field_or_end (cc_alpha ∷ cs) h = (cs, inl (refl, h))
field_or_end (cc_cr ∷ cs) h = (cs, inr (refl, h))
field_or_end (cc_digit ∷ cs) h = not_accepted _ cs refl h
field_or_end (cc_sp ∷ cs) h = not_accepted _ cs refl h
field_or_end (cc_lf ∷ cs) h = not_accepted _ cs refl h
field_or_end (cc_colon ∷ cs) h = not_accepted _ cs refl h
field_or_end (cc_slash ∷ cs) h = not_accepted _ cs refl h
field_or_end (cc_dot ∷ cs) h = not_accepted _ cs refl h
field_or_end (cc_other ∷ cs) h = not_accepted _ cs refl h

-- A header field, without its first letter.
field_read :
    (cs : List CharClass)
    → run s_hdr_nm cs ≡ s_done
    → (h : Header) × (rest : List CharClass) × (cc_alpha ∷ cs ≡ header_line h rest)
      × (run s_hdr_st rest ≡ s_done)
unfolding table row
field_read cs h =
    let (name, r1, name_only, e1, h1) =
      leave s_hdr_nm s_hdr_vl cc_colon name_byte (refl, refl) cs h in
    let (value, r2, value_only, e2, h2) =
      leave s_hdr_vl s_hdr_cr cc_cr value_byte (refl, refl) r1 h1 in
    let (r3, e3, h3) = pass s_hdr_cr s_hdr_st cc_lf (refl, refl) r2 h2 in
    (
      record { name = name; value = value; name_only = name_only; value_only = value_only },
      r3,
      ap (λ t. cc_alpha ∷ t)
          (e1 ∙ ap (λ t. name ++ (cc_colon ∷ t)) (e2 ∙ ap (λ t. value ++ (cc_cr ∷ t)) e3)),
      h3,
    )

end_read :
    (cs : List CharClass)
    → run s_end_cr cs ≡ s_done
    → (rest : List CharClass) × (cs ≡ cc_lf ∷ rest) × (run s_done rest ≡ s_done)
unfolding table row
end_read cs h = pass s_end_cr s_done cc_lf (refl, refl) cs h

header_line-lt : (h : Header) (rest : List CharClass) → length rest < length (header_line h rest)
header_line-lt h rest = omega (
  arith,
  length-append h.name (cc_colon ∷ (h.value ++ (cc_cr ∷ cc_lf ∷ rest))),
  length-append h.value (cc_cr ∷ cc_lf ∷ rest),
)

-- The fields and the empty line. The fuel is the length of the text.
fields_read :
    (fuel : ℕ) (cs : List CharClass)
    → length cs ≤ fuel
    → run s_hdr_st cs ≡ s_done
    → (headers : List Header) × (body : List CharClass) × (cs
        ≡ header_lines headers (cc_cr ∷ cc_lf ∷ body))
fields_read zero [] l h =
    let (rest, split) = field_or_end [] h in elim split [ inl (e, h1) ↦ cc | inr (e, h1) ↦ cc ]
fields_read zero (c ∷ cs) l h = absurd (omega arith)
fields_read (suc fuel) cs l h =
    let (rest, split) = field_or_end cs h in
    elim split [
      | inr (e, h1) ↦
          let (body, e', done) = end_read rest h1 in ([], body, e ∙ ap (λ t. cc_cr ∷ t) e')
      | inl (e, h1) ↦
          let (field, r1, e1, h2) = field_read rest h1 in
          let shorter : length r1 < length cs =
            omega (arith, ap length e, ap length e1, header_line-lt field r1) in
          let (headers, body, e2) = fields_read fuel r1 (omega arith) h2 in
          (field ∷ headers, body, e ∙ (e1 ∙ ap (header_line field) e2))
    ]

-- The version, from the space behind the target.
version_read :
    (cs : List CharClass)
    → run s_u_sp cs ≡ s_done
    → (rest : List CharClass) × (cc_sp ∷ cs ≡ version_line rest) × (run s_hdr_st rest ≡ s_done)
unfolding table row
version_read cs h =
    let (r1, e1, h1) = pass s_u_sp s_vh cc_alpha (refl, refl) cs h in
    let (r2, e2, h2) = pass s_vh s_vt1 cc_alpha (refl, refl) r1 h1 in
    let (r3, e3, h3) = pass s_vt1 s_vt2 cc_alpha (refl, refl) r2 h2 in
    let (r4, e4, h4) = pass s_vt2 s_vp cc_alpha (refl, refl) r3 h3 in
    let (r5, e5, h5) = pass s_vp s_vslash cc_slash (refl, refl) r4 h4 in
    let (r6, e6, h6) = pass s_vslash s_vmaj cc_digit (refl, refl) r5 h5 in
    let (r7, e7, h7) = pass s_vmaj s_vdot cc_dot (refl, refl) r6 h6 in
    let (r8, e8, h8) = pass s_vdot s_vmin cc_digit (refl, refl) r7 h7 in
    let (r9, e9, h9) = pass s_vmin s_rl_cr cc_cr (refl, refl) r8 h8 in
    let (r10, e10, h10) = pass s_rl_cr s_hdr_st cc_lf (refl, refl) r9 h9 in
    (
      r10,
      ap (λ t. cc_sp ∷ t)
          (tail e1
            (tail e2 (tail e3 (tail e4 (tail e5 (tail e6 (tail e7 (tail e8 (tail e9 e10))))))))),
      h10,
    )

pub accepted-Request : (cs : List CharClass) → run s_method cs ≡ s_done → Request cs
unfolding table row
accepted-Request cs h =
    let (method, r1, method_only, e1, h1) =
      leave s_method s_m_sp cc_sp is_alpha (refl, refl) cs h in
    let (start, r2, start_fits, e2, h2) = target_first r1 h1 in
    let (target, r3, target_only, e3, h3) = leave s_uri s_u_sp cc_sp uri_byte (refl, refl) r2 h2 in
    let (r4, e4, h4) = version_read r3 h3 in
    let (headers, body, e5) = fields_read (length r4) r4 (omega arith) h4 in
    record {
      method = method;
      target_start = start;
      target = target;
      headers = headers;
      body = body;
      method_only = method_only;
      start_fits = start_fits;
      target_only = target_only;
      spells =
          e1
          ∙ ap (λ t. method ++ (cc_sp ∷ t))
              (e2 ∙ ap (λ t. start ∷ t) (e3 ∙ ap (λ t. target ++ t) (e4 ∙ ap version_line e5)));
    }
