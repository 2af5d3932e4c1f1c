-- ===== src/Http/Cells.antt =====
-- What the cells of a state's row do, decided on the nine classes.
use ws_pi.Base.{ℕ, zero, suc, ◌≡◌, refl, ap, sym, ◌∙◌, arith, List, [], ◌∷◌}
use ws_pi.Base.{Bool, true, false, ◌&&◌, ◌==◌}
use ws_pi.Http.{
  State, CharClass, class_index, state_index, s_method, s_m_sp, s_uri, s_u_sp, s_vh, s_vt1, s_vt2,
  s_vp, s_vslash, s_vmaj, s_vdot, s_vmin, s_rl_cr, s_hdr_st, s_hdr_nm, s_hdr_vl, s_hdr_cr, s_end_cr,
  s_done, s_error, cc_alpha, cc_digit, cc_sp, cc_cr, cc_lf, cc_colon, cc_slash, cc_dot, cc_other,
}

abbrev state_at : ℕ → State
state_at n = go n (
    s_method ∷ s_m_sp ∷ s_uri ∷ s_u_sp ∷ s_vh ∷ s_vt1 ∷ s_vt2 ∷ s_vp ∷ s_vslash ∷ s_vmaj ∷ s_vdot
    ∷ s_vmin ∷ s_rl_cr ∷ s_hdr_st ∷ s_hdr_nm ∷ s_hdr_vl ∷ s_hdr_cr ∷ s_end_cr ∷ s_done ∷ [])
  where
    go : ℕ → List State → State
    go n [] = s_error
    go zero (s ∷ ss) = s
    go (suc n) (s ∷ ss) = go n ss

state_at-state_index : (s : State) → state_at (state_index s) ≡ s
state_at-state_index s_method = refl
state_at-state_index s_m_sp = refl
state_at-state_index s_uri = refl
state_at-state_index s_u_sp = refl
state_at-state_index s_vh = refl
state_at-state_index s_vt1 = refl
state_at-state_index s_vt2 = refl
state_at-state_index s_vp = refl
state_at-state_index s_vslash = refl
state_at-state_index s_vmaj = refl
state_at-state_index s_vdot = refl
state_at-state_index s_vmin = refl
state_at-state_index s_rl_cr = refl
state_at-state_index s_hdr_st = refl
state_at-state_index s_hdr_nm = refl
state_at-state_index s_hdr_vl = refl
state_at-state_index s_hdr_cr = refl
state_at-state_index s_end_cr = refl
state_at-state_index s_done = refl
state_at-state_index s_error = refl

abbrev pub is_state : State → State → Bool
is_state s t = state_index s == state_index t

abbrev pub is_class : CharClass → CharClass → Bool
is_class c d = class_index c == class_index d

pub is_state-eq : (s t : State) → is_state s t ≡ true → s ≡ t
is_state-eq s t h =
    let same : state_index s ≡ state_index t = ground (arith, h) in
    sym (state_at-state_index s) ∙ ap state_at same ∙ state_at-state_index t

abbrev class_at : ℕ → CharClass
class_at zero = cc_alpha
class_at (suc zero) = cc_digit
class_at (suc (suc zero)) = cc_sp
class_at (suc (suc (suc zero))) = cc_cr
class_at (suc (suc (suc (suc zero)))) = cc_lf
class_at (suc (suc (suc (suc (suc zero))))) = cc_colon
class_at (suc (suc (suc (suc (suc (suc zero)))))) = cc_slash
class_at (suc (suc (suc (suc (suc (suc (suc zero))))))) = cc_dot
class_at _ = cc_other

class_at-class_index : (c : CharClass) → class_at (class_index c) ≡ c
class_at-class_index cc_alpha = refl
class_at-class_index cc_digit = refl
class_at-class_index cc_sp = refl
class_at-class_index cc_cr = refl
class_at-class_index cc_lf = refl
class_at-class_index cc_colon = refl
class_at-class_index cc_slash = refl
class_at-class_index cc_dot = refl
class_at-class_index cc_other = refl

pub is_class-eq : (c d : CharClass) → is_class c d ≡ true → c ≡ d
is_class-eq c d h =
    let same : class_index c ≡ class_index d = ground (arith, h) in
    sym (class_at-class_index c) ∙ ap class_at same ∙ class_at-class_index d

abbrev pub every_class : (CharClass → Bool) → Bool
every_class f =
    f cc_alpha
    && f cc_digit
    && f cc_sp
    && f cc_cr
    && f cc_lf
    && f cc_colon
    && f cc_slash
    && f cc_dot
    && f cc_other

pub class-true : (f : CharClass → Bool) → every_class f ≡ true → (c : CharClass) → f c ≡ true
class-true f h cc_alpha = ground (arith, h)
class-true f h cc_digit = ground (arith, h)
class-true f h cc_sp = ground (arith, h)
class-true f h cc_cr = ground (arith, h)
class-true f h cc_lf = ground (arith, h)
class-true f h cc_colon = ground (arith, h)
class-true f h cc_slash = ground (arith, h)
class-true f h cc_dot = ground (arith, h)
class-true f h cc_other = ground (arith, h)

abbrev every_first_line : (State → Bool) → Bool
every_first_line f = f s_method && f s_m_sp && f s_uri && f s_u_sp && f s_vh && f s_vt1 && f s_vt2

abbrev every_version : (State → Bool) → Bool
every_version f = f s_vp && f s_vslash && f s_vmaj && f s_vdot && f s_vmin && f s_rl_cr

abbrev every_fields : (State → Bool) → Bool
every_fields f =
    f s_hdr_st && f s_hdr_nm && f s_hdr_vl && f s_hdr_cr && f s_end_cr && f s_done && f s_error

abbrev pub every_state : (State → Bool) → Bool
every_state f = every_first_line f && (every_version f && every_fields f)

both : (a b : Bool) → a && b ≡ true → (a ≡ true) × (b ≡ true)
both true b h = (refl, h)
both false b h = cc

pub state-true : (f : State → Bool) → every_state f ≡ true → (s : State) → f s ≡ true
state-true f h s =
    let (first, more) = both (every_first_line f) _ h in
    let (second, third) = both (every_version f) _ more in go f first second third s
  where
    go :
        (f : State → Bool)
        → every_first_line f ≡ true
        → every_version f ≡ true
        → every_fields f ≡ true
        → (s : State) → f s ≡ true
    go f a _ _ s_method = ground (arith, a)
    go f a _ _ s_m_sp = ground (arith, a)
    go f a _ _ s_uri = ground (arith, a)
    go f a _ _ s_u_sp = ground (arith, a)
    go f a _ _ s_vh = ground (arith, a)
    go f a _ _ s_vt1 = ground (arith, a)
    go f a _ _ s_vt2 = ground (arith, a)
    go f _ b _ s_vp = ground (arith, b)
    go f _ b _ s_vslash = ground (arith, b)
    go f _ b _ s_vmaj = ground (arith, b)
    go f _ b _ s_vdot = ground (arith, b)
    go f _ b _ s_vmin = ground (arith, b)
    go f _ b _ s_rl_cr = ground (arith, b)
    go f _ _ c s_hdr_st = ground (arith, c)
    go f _ _ c s_hdr_nm = ground (arith, c)
    go f _ _ c s_hdr_vl = ground (arith, c)
    go f _ _ c s_hdr_cr = ground (arith, c)
    go f _ _ c s_end_cr = ground (arith, c)
    go f _ _ c s_done = ground (arith, c)
    go f _ _ c s_error = ground (arith, c)
