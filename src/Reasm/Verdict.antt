-- ===== src/Reasm/Verdict.antt =====
-- The whole oracle: every fragment gets exactly the verdict that the description gives it.
use ws_pi.Base.{ℕ, ◌+◌, ◌%◌, ◌≤◌, ◌<◌, ◌≡◌, ◌≢◌, ◌⊎◌, inl, inr, refl, ◌∙◌, arith, Bool, true, false}
use ws_pi.Base.{not, ◌&&◌, All, ltb, ◌==◌, if◌then◌else◌, Result, ok, Bool-cases}
use ws_pi.Base.Bytes.{IsByte}
use ws_pi.Reasm.{Slot, Outcome}
use ws_pi.Reasm.{drop_bounds, drop_nonaligned, drop_no_slot, drop_with, fresh, dummy, accept, judge}
use ws_pi.Reasm.{reasm_buf_size, empty_bitmap, freed}
use ws_pi.Reasm.Judge.{IsSlot, Accepted, accept_lem}

-- The slot that takes the fragment: the one found, or a fresh one.
abbrev pub taker : Slot → Slot
taker s = if s.active then s else fresh

-- The verdict on any fragment.
pub data Verdict (s : Slot) (frag_offset payload_len mf_flag : ℕ) (pool_free : Bool)
    : Outcome → Type 0 where
  no_payload :
      payload_len ≡ 0
      → Verdict s frag_offset payload_len mf_flag pool_free (drop_with drop_bounds s)
  beyond_buffer :
      0 < payload_len
      → reasm_buf_size < frag_offset + payload_len
      → Verdict s frag_offset payload_len mf_flag pool_free (drop_with drop_bounds s)
  ragged :
      0 < payload_len
      → frag_offset + payload_len ≤ reasm_buf_size
      → mf_flag ≡ 1
      → payload_len % 8 ≢ 0
      → Verdict s frag_offset payload_len mf_flag pool_free (drop_with drop_nonaligned s)
  pool_full :
      0 < payload_len
      → frag_offset + payload_len ≤ reasm_buf_size
      → (mf_flag ≢ 1) ⊎ (payload_len % 8 ≡ 0)
      → s.active ≡ false
      → pool_free ≡ false
      → Verdict s frag_offset payload_len mf_flag pool_free (drop_with drop_no_slot dummy)
  taken :
      {o : Outcome}
      → 0 < payload_len
      → frag_offset + payload_len ≤ reasm_buf_size
      → (mf_flag ≢ 1) ⊎ (payload_len % 8 ≡ 0)
      → (s.active ≡ true) ⊎ (pool_free ≡ true)
      → Accepted (taker s) frag_offset payload_len mf_flag o
      → Verdict s frag_offset payload_len mf_flag pool_free o

All-zeros : All IsByte empty_bitmap
All-zeros = omega arith

pub fresh-IsSlot : IsSlot fresh
fresh-IsSlot = record { long = refl; bytes = All-zeros; fits = omega arith }

pub freed-IsSlot : IsSlot freed
freed-IsSlot = record { long = refl; bytes = All-zeros; fits = omega arith }

choose_taker :
    (f : Slot → Result Outcome) (full : Result Outcome) (s : Slot) (on free : Bool)
    → (on ≡ true) ⊎ (free ≡ true)
    → (if on then f s else if free then f fresh else full) ≡ f (if on then s else fresh)
choose_taker f full s true free h = refl
choose_taker f full s false true h = refl
choose_taker f full s false false h = ground (arith, h)

pub taker-IsSlot : (s : Slot) (on : Bool) → IsSlot s → IsSlot (if on then s else fresh)
taker-IsSlot s true v = v
taker-IsSlot s false v = fresh-IsSlot

taker-active : (s : Slot) → (taker s).active ≡ true
taker-active s = go s.active refl
  where
    go : (on : Bool) → s.active ≡ on → (if on then s else fresh).active ≡ true
    go true h = h
    go false h = refl

module _ (s : Slot) (frag_offset payload_len mf_flag : ℕ) (pool_free : Bool) (v : IsSlot s)
    (some_sent : ltb payload_len 1 ≡ false)
    (room : ltb reasm_buf_size (frag_offset + payload_len) ≡ false)
    (aligned : (mf_flag == 1) && not (payload_len % 8 == 0) ≡ false)
    (taking : (s.active ≡ true) ⊎ (pool_free ≡ true)) where
  judge_taken :
      (o : Outcome) × (judge s frag_offset payload_len mf_flag pool_free ≡ ok o)
      × Verdict s frag_offset payload_len mf_flag pool_free o
  unfolding judge
  judge_taken =
      let sent : 0 < payload_len = ground (arith, some_sent) in
      let fits : frag_offset + payload_len ≤ reasm_buf_size = ground (arith, room) in
      let (o, e, a) =
        accept_lem (taker s) frag_offset payload_len mf_flag (taker-IsSlot s s.active v)
          (taker-active s) sent fits in
      let chosen =
        choose_taker (λ t. accept t frag_offset payload_len mf_flag)
          (ok (drop_with drop_no_slot dummy)) s s.active pool_free taking in
      (
        o,
        rw (some_sent, room, aligned) (chosen ∙ e),
        taken sent fits (ground (arith, aligned)) taking a,
      )

-- On every well-formed slot and for every fragment, the oracle's body raises nothing and returns the
-- verdict that the description by 8-byte units gives.
pub judge-Verdict :
    (s : Slot) (frag_offset payload_len mf_flag : ℕ) (pool_free : Bool)
    → IsSlot s
    → (o : Outcome) × (judge s frag_offset payload_len mf_flag pool_free ≡ ok o)
      × Verdict s frag_offset payload_len mf_flag pool_free o
unfolding judge
judge-Verdict s off len mf pool v = elim (Bool-cases (ltb len 1)) [
  | inl none_sent ↦ (_, ground (arith, none_sent), no_payload (ground arith))
  | inr some_sent ↦ elim (Bool-cases (ltb reasm_buf_size (off + len))) [
    | inl big ↦ (_, rw (some_sent, big), beyond_buffer (ground arith) (ground arith))
    | inr room ↦ elim (Bool-cases ((mf == 1) && not (len % 8 == 0))) [
      | inl ragged_end ↦ (
        _,
        rw (some_sent, room, ragged_end),
        ragged (ground arith) (ground arith) (ground arith) (ground arith),
      )
      | inr aligned ↦ elim (Bool-cases s.active) [
        | inl on ↦ judge_taken s off len mf pool v some_sent room aligned (inl on)
        | inr idle ↦ elim (Bool-cases pool) [
          | inl free ↦ judge_taken s off len mf pool v some_sent room aligned (inr free)
          | inr full ↦ (
            _,
            rw (some_sent, room, aligned, idle, full),
            pool_full (ground arith) (ground arith) (ground arith) idle full,
          )
        ]
      ]
    ]
  ]
]
