-- ===== src/Http/Request/Complete.antt =====
-- A request is accepted, and the two directions together.
use ws_pi.Base.{◌≡◌, ◌↔◌, refl, ◌∙◌, ap, List, [], ◌∷◌, ◌++◌}
use ws_pi.Base.{Bool, true, false, ◌||◌, not}
use ws_pi.Http.{
  State, CharClass, table, row, s_method, s_m_sp, s_uri, s_hdr_st, s_hdr_nm, s_hdr_vl, s_done,
  cc_cr, cc_lf,
}
use ws_pi.Http.Run.{step, run}
use ws_pi.Http.Cells.{is_state, is_state-eq, every_class, class-true}
use ws_pi.Http.Request.{
  Header, Request, header_line, header_lines, version_line, is_alpha, uri_byte, name_byte,
  value_byte, Only,
}
use ws_pi.Http.Request.Sound.{accepted-Request}

-- Every class of `inside` leads from `st` to `next`.
abbrev leads : State → State → (CharClass → Bool) → CharClass → Bool
leads st next inside c = not (inside c) || is_state (step st c) next

step-leads :
    (st next : State) (inside : CharClass → Bool)
    → every_class (leads st next inside) ≡ true
    → (c : CharClass) → inside c ≡ true
    → step st c ≡ next
step-leads st next inside fits c i =
    let cell : leads st next inside c ≡ true = class-true (leads st next inside) fits c in
    is_state-eq (step st c) next (go (inside c) _ i cell)
  where
    go : (a b : Bool) → a ≡ true → not a || b ≡ true → b ≡ true
    go true b h k = k
    go false b h k = cc

run-loop :
    (st : State) (inside : CharClass → Bool)
    → every_class (leads st st inside) ≡ true
    → (pre rest : List CharClass) → Only inside pre
    → run st (pre ++ rest) ≡ run st rest
unfolding run
run-loop st inside fits [] rest only = refl
run-loop st inside fits (c ∷ pre) rest (i, only) =
    ap (λ s. run s (pre ++ rest)) (step-leads st st inside fits c i)
    ∙ run-loop st inside fits pre rest only

run-header_line :
    (h : Header) (rest : List CharClass) → run s_hdr_st (header_line h rest) ≡ run s_hdr_st rest
unfolding run table row
run-header_line h rest =
    run-loop s_hdr_nm name_byte refl h.name _ h.name_only
    ∙ run-loop s_hdr_vl value_byte refl h.value _ h.value_only

run-s_done : (cs : List CharClass) → run s_done cs ≡ s_done
unfolding run table row
run-s_done [] = refl
run-s_done (c ∷ cs) =
    ap (λ s. run s cs) (step-leads s_done s_done (λ _. true) refl c refl) ∙ run-s_done cs

run-header_lines :
    (hs : List Header) (body : List CharClass)
    → run s_hdr_st (header_lines hs (cc_cr ∷ cc_lf ∷ body)) ≡ s_done
unfolding run table row
run-header_lines [] body = run-s_done body
run-header_lines (h ∷ hs) body = run-header_line h _ ∙ run-header_lines hs body

Request-accepted : (cs : List CharClass) → Request cs → run s_method cs ≡ s_done
unfolding run table row
Request-accepted cs r =
    let after = version_line (header_lines r.headers (cc_cr ∷ cc_lf ∷ r.body)) in
    ap (run s_method) r.spells
    ∙ run-loop s_method is_alpha refl r.method _ r.method_only
    ∙ ap (λ s. run s (r.target ++ after))
        (step-leads s_m_sp s_uri uri_byte refl r.target_start r.start_fits)
    ∙ run-loop s_uri uri_byte refl r.target after r.target_only
    ∙ run-header_lines r.headers r.body

-- The automaton of `http_fsa_oracle.py`, started in `S_METHOD`, ends a text in `S_DONE` exactly when
-- the text is a request head and what follows it: letters, a space, a target without spaces and line
-- ends, a space, four letters, a slash, a digit, a dot, a digit, a line end, header fields, each a
-- letter, the rest of the name without spaces, colons and line ends, a colon and a value without line
-- ends, and an empty line.
pub run-accepts-Request : (cs : List CharClass) → (run s_method cs ≡ s_done) ↔ Request cs
run-accepts-Request cs = (accepted-Request cs, Request-accepted cs)
