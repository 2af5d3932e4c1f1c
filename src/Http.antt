-- ===== src/Http.antt =====
-- scripts/http_fsa_oracle.py: the transition table of the HTTP request automaton.
pub mod Run
pub mod Cells
pub mod Request
pub mod Actions
use ws_pi.Base.{ℕ, ◌+◌, ◌*◌, ◌^◌, ◌≡◌, refl, ap, sym, ◌∙◌, arith, List, [], ◌∷◌, Bool, ◌==◌, bit_or}
use ws_pi.Base.{if◌then◌else◌}

-- `STATES`, in order.
pub data State : Type 0 where
  s_method s_m_sp s_uri s_u_sp : State
  s_vh s_vt1 s_vt2 s_vp s_vslash s_vmaj s_vdot s_vmin : State
  s_rl_cr s_hdr_st s_hdr_nm s_hdr_vl s_hdr_cr s_end_cr s_done s_error : State

-- `CLASSES`, in order.
pub data CharClass : Type 0 where
  cc_alpha cc_digit cc_sp cc_cr cc_lf cc_colon cc_slash cc_dot cc_other : CharClass

-- `C`, the number of a class.
abbrev pub class_index : CharClass → ℕ
class_index cc_alpha = 0
class_index cc_digit = 1
class_index cc_sp = 2
class_index cc_cr = 3
class_index cc_lf = 4
class_index cc_colon = 5
class_index cc_slash = 6
class_index cc_dot = 7
class_index cc_other = 8

-- `S`, the number of a state.
abbrev pub state_index : State → ℕ
state_index s_method = 0
state_index s_m_sp = 1
state_index s_uri = 2
state_index s_u_sp = 3
state_index s_vh = 4
state_index s_vt1 = 5
state_index s_vt2 = 6
state_index s_vp = 7
state_index s_vslash = 8
state_index s_vmaj = 9
state_index s_vdot = 10
state_index s_vmin = 11
state_index s_rl_cr = 12
state_index s_hdr_st = 13
state_index s_hdr_nm = 14
state_index s_hdr_vl = 15
state_index s_hdr_cr = 16
state_index s_end_cr = 17
state_index s_done = 18
state_index s_error = 19

-- An action and the next state.
abbrev pub Cell : Type 0
Cell = ℕ × State

-- `row`: the transitions that are given, and ERROR for the other classes.
unfoldable pub row : List (CharClass × Cell) → CharClass → Cell
row [] c = (0, s_error)
row ((cc, cell) ∷ transitions) c =
    if class_index cc == class_index c then cell else row transitions c

-- Every class to the same cell.
abbrev pub to_all : Cell → List (CharClass × Cell)
to_all cell =
    (cc_alpha, cell)
    ∷ (cc_digit, cell)
    ∷ (cc_sp, cell)
    ∷ (cc_cr, cell)
    ∷ (cc_lf, cell)
    ∷ (cc_colon, cell)
    ∷ (cc_slash, cell)
    ∷ (cc_dot, cell)
    ∷ (cc_other, cell)
    ∷ []

-- The arguments of the calls of `row`.
abbrev pub transitions : State → List (CharClass × Cell)
transitions s_method = (cc_alpha, (0, s_method)) ∷ (cc_sp, (0, s_m_sp)) ∷ []
transitions s_m_sp =
    (cc_alpha, (1, s_uri))
    ∷ (cc_digit, (1, s_uri))
    ∷ (cc_colon, (1, s_uri))
    ∷ (cc_slash, (1, s_uri))
    ∷ (cc_dot, (1, s_uri))
    ∷ (cc_other, (1, s_uri))
    ∷ []
transitions s_uri =
    (cc_alpha, (0, s_uri))
    ∷ (cc_digit, (0, s_uri))
    ∷ (cc_sp, (2, s_u_sp))
    ∷ (cc_colon, (0, s_uri))
    ∷ (cc_slash, (0, s_uri))
    ∷ (cc_dot, (0, s_uri))
    ∷ (cc_other, (0, s_uri))
    ∷ []
transitions s_u_sp = (cc_alpha, (0, s_vh)) ∷ []
transitions s_vh = (cc_alpha, (0, s_vt1)) ∷ []
transitions s_vt1 = (cc_alpha, (0, s_vt2)) ∷ []
transitions s_vt2 = (cc_alpha, (0, s_vp)) ∷ []
transitions s_vp = (cc_slash, (0, s_vslash)) ∷ []
transitions s_vslash = (cc_digit, (0, s_vmaj)) ∷ []
transitions s_vmaj = (cc_dot, (0, s_vdot)) ∷ []
transitions s_vdot = (cc_digit, (3, s_vmin)) ∷ []
transitions s_vmin = (cc_cr, (0, s_rl_cr)) ∷ []
transitions s_rl_cr = (cc_lf, (0, s_hdr_st)) ∷ []
transitions s_hdr_st = (cc_alpha, (4, s_hdr_nm)) ∷ (cc_cr, (0, s_end_cr)) ∷ []
transitions s_hdr_nm =
    (cc_alpha, (0, s_hdr_nm))
    ∷ (cc_digit, (0, s_hdr_nm))
    ∷ (cc_colon, (5, s_hdr_vl))
    ∷ (cc_slash, (0, s_hdr_nm))
    ∷ (cc_dot, (0, s_hdr_nm))
    ∷ (cc_other, (0, s_hdr_nm))
    ∷ []
transitions s_hdr_vl =
    (cc_alpha, (0, s_hdr_vl))
    ∷ (cc_digit, (0, s_hdr_vl))
    ∷ (cc_sp, (0, s_hdr_vl))
    ∷ (cc_cr, (0, s_hdr_cr))
    ∷ (cc_colon, (0, s_hdr_vl))
    ∷ (cc_slash, (0, s_hdr_vl))
    ∷ (cc_dot, (0, s_hdr_vl))
    ∷ (cc_other, (0, s_hdr_vl))
    ∷ []
transitions s_hdr_cr = (cc_lf, (0, s_hdr_st)) ∷ []
transitions s_end_cr = (cc_lf, (6, s_done)) ∷ []
transitions s_done = to_all (0, s_done)
transitions s_error = to_all (0, s_error)

-- `T[state][class]`
unfoldable pub table : State → CharClass → Cell
unfolding row
table s = row (transitions s)

-- `(action << 5) | state`
unfoldable pub encode : ℕ → ℕ → ℕ
encode action state = bit_or (action * 2 ^ 5) state

-- One line of the output: the next state, the action and their byte.
unfoldable pub vector_line : State → CharClass → State × ℕ × ℕ
unfolding encode table
vector_line s c = let (act, ns) = table s c in (ns, act, encode act (state_index ns))
