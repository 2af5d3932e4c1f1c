-- ===== src/Reasm/States.antt =====
-- The oracle from the states that the test vectors name.
use ws_pi.Base.{ℕ, ◌≡◌, ◌≢◌, ◌⊎◌, inl, inr, refl, ◌∙◌, arith, ◌∷◌, Bool, true, false}
use ws_pi.Base.{replicate, ok, err, value_error}
use ws_pi.Base.Bytes.{Bytes}
use ws_pi.Reasm.{Slot, Outcome, SlotState, empty, first_half, second_half, near_complete, other}
use ws_pi.Reasm.{judge, oracle, slot_pre_state, make_bitmap, set_ranges, set_range, set_bit}
use ws_pi.Reasm.Judge.{IsSlot}
use ws_pi.Reasm.Verdict.{Verdict, judge-Verdict}
use ws_pi.Reasm.Preserved.{judge-IsSlot}

-- The bitmap with the units of the bytes 0 to 399, those of 400 to 799, and of 0 to 399 and 600 to 799.
abbrev low_units : Bytes
low_units = 0xff ∷ 0xff ∷ 0xff ∷ 0xff ∷ 0xff ∷ 0xff ∷ 0x03 ∷ replicate 25 0

abbrev high_units : Bytes
high_units = 0 ∷ 0 ∷ 0 ∷ 0 ∷ 0 ∷ 0 ∷ 0xfc ∷ 0xff ∷ 0xff ∷ 0xff ∷ 0xff ∷ 0xff ∷ 0x0f ∷ replicate 19 0

abbrev gapped_units : Bytes
gapped_units =
    0xff
    ∷ 0xff
    ∷ 0xff
    ∷ 0xff
    ∷ 0xff
    ∷ 0xff
    ∷ 0x03
    ∷ 0
    ∷ 0
    ∷ 0xf8
    ∷ 0xff
    ∷ 0xff
    ∷ 0x0f
    ∷ replicate 19 0

-- The slot that each name stands for; `other` stands for none.
abbrev pub slot_of : SlotState → Slot
slot_of empty = record { active = false; have_last = false; total_len = 0; bitmap = replicate 32 0 }
slot_of first_half = record { active = true; have_last = false; total_len = 0; bitmap = low_units }
slot_of second_half = record {
  active = true;
  have_last = true;
  total_len = 800;
  bitmap = high_units;
}
slot_of near_complete = record {
  active = true;
  have_last = true;
  total_len = 800;
  bitmap = gapped_units;
}
slot_of other = record { active = false; have_last = false; total_len = 0; bitmap = replicate 32 0 }

slot_of-IsSlot : (name : SlotState) → IsSlot (slot_of name)
slot_of-IsSlot empty = record { long = refl; bytes = omega arith; fits = omega arith }
slot_of-IsSlot first_half = record { long = refl; bytes = omega arith; fits = omega arith }
slot_of-IsSlot second_half = record { long = refl; bytes = omega arith; fits = omega arith }
slot_of-IsSlot near_complete = record { long = refl; bytes = omega arith; fits = omega arith }
slot_of-IsSlot other = record { long = refl; bytes = omega arith; fits = omega arith }

oracle-judge :
    (name : SlotState) (frag_offset payload_len mf_flag : ℕ) (pool_free : Bool)
    → ((name ≡ other) × (oracle name frag_offset payload_len mf_flag pool_free ≡ err value_error))
      ⊎ ((name ≢ other)
          × (oracle name frag_offset payload_len mf_flag pool_free
              ≡ judge (slot_of name) frag_offset payload_len mf_flag pool_free))
unfolding oracle slot_pre_state make_bitmap set_ranges set_range set_bit
oracle-judge empty off len mf pool = inr ((λ e. cc), refl)
oracle-judge first_half off len mf pool = inr ((λ e. cc), refl)
oracle-judge second_half off len mf pool = inr ((λ e. cc), refl)
oracle-judge near_complete off len mf pool = inr ((λ e. cc), refl)
oracle-judge other off len mf pool = inl (refl, refl)

-- From each of the four named states and for every fragment, `oracle` raises nothing, returns the
-- verdict that the description by 8-byte units gives, and leaves a well-formed slot. On any other name
-- it raises `ValueError`.
pub oracle-Verdict :
    (name : SlotState) (frag_offset payload_len mf_flag : ℕ) (pool_free : Bool)
    → ((name ≡ other) × (oracle name frag_offset payload_len mf_flag pool_free ≡ err value_error))
      ⊎ ((name ≢ other)
          × (o : Outcome) × (oracle name frag_offset payload_len mf_flag pool_free ≡ ok o)
          × Verdict (slot_of name) frag_offset payload_len mf_flag pool_free o
          × IsSlot o.post)
oracle-Verdict name off len mf pool = elim (oracle-judge name off len mf pool) [
  | inl unknown ↦ inl unknown
  | inr (named, same) ↦
      let v = slot_of-IsSlot name in
      let (o, e, verdict) = judge-Verdict (slot_of name) off len mf pool v in
      inr (named, o, same ∙ e, verdict, judge-IsSlot (slot_of name) off len mf pool o v e)
]
