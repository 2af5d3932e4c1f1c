-- ===== src/Reasm.antt =====
-- scripts/reasm_oracle.py: the bitmap helpers and the oracle of the reassembly test vectors.
pub mod Bitmap
pub mod AllSet
pub mod Judge
pub mod Verdict
pub mod Preserved
pub mod States
pub mod Vector
pub mod FrameLaws
pub mod EntryLaws
use ws_pi.Base.{
  ℕ, zero, suc, ◌+◌, ◌-◌, ◌*◌, ◌/◌, ◌%◌, ◌^◌, List, [], ◌∷◌, ◌++◌, Bool, true, false, not,
}
use ws_pi.Base.{◌&&◌, ◌||◌, bit_and, bit_or, length, get_or, set, replicate, ltb, leb, ◌==◌}
use ws_pi.Base.{if◌then◌else◌, Result, ok, err, value_error, index_error, guard, ◌>>=◌, ◌>>◌}
use ws_pi.Base.Bytes.{Bytes}

abbrev pub reasm_buf_size : ℕ
reasm_buf_size = 2048

abbrev pub eth_frame_max : ℕ
eth_frame_max = 1514

abbrev pub empty_bitmap : Bytes
empty_bitmap = replicate 32 0

-- `bm[b // 8] |= 1 << (b % 8)`
unfoldable pub set_bit : Bytes → ℕ → Result Bytes
set_bit bm b = do
  guard (ltb (b / 8) (length bm)) index_error
  ok (set bm (b / 8) (bit_or (get_or bm (b / 8) 0) (2 ^ (b % 8))))

-- The inner loop of `make_bitmap`, over `count` bits from `b` on.
unfoldable pub set_range : ℕ → ℕ → Bytes → Result Bytes
set_range zero b bm = ok bm
set_range (suc count) b bm = do bm' ← set_bit bm b; set_range count (b + 1) bm'

unfoldable pub set_ranges : List (ℕ × ℕ) → Bytes → Result Bytes
set_ranges [] bm = ok bm
set_ranges ((start, end) ∷ ranges) bm = do
  bm' ← set_range ((end + 7) / 8 - start / 8) (start / 8) bm
  set_ranges ranges bm'

-- `range(start // 8, (end - 1) // 8 + 1)` stops at `(end + 7) // 8`, also where `end` is 0.
unfoldable pub make_bitmap : List (ℕ × ℕ) → Result Bytes
make_bitmap ranges = set_ranges ranges empty_bitmap

unfoldable pub bitmap_has_bit : Bytes → ℕ → Result Bool
bitmap_has_bit bm bit = do
  guard (ltb (bit / 8) (length bm)) index_error
  ok (not (bit_and (get_or bm (bit / 8) 0) (2 ^ (bit % 8)) == 0))

-- `bytes(x | y for x, y in zip(a, b))`
unfoldable pub bitmap_or : Bytes → Bytes → Bytes
bitmap_or [] b = []
bitmap_or (x ∷ a) [] = []
bitmap_or (x ∷ a) (y ∷ b) = bit_or x y ∷ bitmap_or a b

-- `for i in range(full_bytes): if bm[i] != 0xFF: return False`, over the bytes left of `bm`; the last
-- test is on the bits of one more byte.
unfoldable pub all_set_loop : ℕ → ℕ → Bytes → Result Bool
all_set_loop zero zero bm = ok true
all_set_loop zero (suc remaining) [] = err index_error
all_set_loop zero (suc remaining) (x ∷ bm) =
    let mask = 2 ^ suc remaining - 1 in ok (bit_and x mask == mask)
all_set_loop (suc full) remaining [] = err index_error
all_set_loop (suc full) remaining (x ∷ bm) =
    let rest = all_set_loop full remaining bm in if x == 0xff then rest else ok false

unfoldable pub bitmap_all_set : Bytes → ℕ → Result Bool
bitmap_all_set bm total_bits = all_set_loop (total_bits / 8) (total_bits % 8) bm

-- The names of the pre-seeded states; `other` is any other text.
pub data SlotState : Type 0 where
  empty first_half second_half near_complete other : SlotState

-- `(code, flags, total_len, bitmap)`
unfoldable pub slot_pre_state : SlotState → Result (ℕ × ℕ × ℕ × Bytes)
slot_pre_state empty = ok (0, 0x00, 0, empty_bitmap)
slot_pre_state first_half = do bm ← make_bitmap ((0, 400) ∷ []); ok (1, 0x80, 0, bm)
slot_pre_state second_half = do bm ← make_bitmap ((400, 800) ∷ []); ok (2, 0x81, 800, bm)
slot_pre_state near_complete = do
  bm ← make_bitmap ((0, 400) ∷ (600, 800) ∷ [])
  ok (3, 0x81, 800, bm)
slot_pre_state other = err value_error

-- The REASON_ codes 0 to 6, in order.
pub data Reason : Type 0 where
  ok_complete ok_incomplete drop_nonaligned drop_no_slot drop_overlap : Reason
  drop_bounds drop_oversized : Reason

pub record Slot : Type 0 where
  pub active : Bool
  pub have_last : Bool
  pub total_len : ℕ
  pub bitmap : Bytes

pub record Outcome : Type 0 where
  pub ret_nonzero : ℕ
  pub reason : Reason
  pub post : Slot

abbrev pub freed : Slot
freed = record { active = false; have_last = false; total_len = 0; bitmap = empty_bitmap }

abbrev pub drop_with : Reason → Slot → Outcome
drop_with reason post = record { ret_nonzero = 0; reason = reason; post = post }

-- Step 5: is any bit of the fragment already set?
unfoldable pub overlaps : ℕ → ℕ → Bytes → Result Bool
overlaps zero b bm = ok false
overlaps (suc count) b bm = do
  hit ← bitmap_has_bit bm b
  elim hit [ true ↦ ok true | false ↦ overlaps count (b + 1) bm ]

-- Steps 8 and 9: is the datagram complete, and does it fit a frame?
unfoldable pub completion : Slot → Result Outcome
completion s = elim s.have_last [
  | true ↦ do
    whole ← bitmap_all_set s.bitmap ((s.total_len + 7) / 8)
    ok (
        if not whole
        then drop_with ok_incomplete s
        else if ltb eth_frame_max (s.total_len + 14 + 20)
        then drop_with drop_oversized freed
        else record { ret_nonzero = 1; reason = ok_complete; post = freed })
  | false ↦ ok (drop_with ok_incomplete s)
]

-- Steps 5 to 9, on the slot that was found or allocated.
unfoldable pub accept : Slot → ℕ → ℕ → ℕ → Result Outcome
unfolding completion
accept s frag_offset payload_len mf_flag = do
  let end = frag_offset + payload_len
  hit ← overlaps ((end + 7) / 8 - frag_offset / 8) (frag_offset / 8) s.bitmap
  if hit then ok (drop_with drop_overlap (record s { active = true })) else do
    new_bm ← make_bitmap ((frag_offset, end) ∷ [])
    let last = mf_flag == 0
    completion (record {
      active = true;
      have_last = if last then true else s.have_last;
      total_len = if last then end else s.total_len;
      bitmap = bitmap_or s.bitmap new_bm;
    })

abbrev pub fresh : Slot
fresh = record { active = true; have_last = false; total_len = 0; bitmap = empty_bitmap }

abbrev pub dummy : Slot
dummy = fresh

-- `oracle` after it has read the slot's state.
unfoldable pub judge : Slot → ℕ → ℕ → ℕ → Bool → Result Outcome
judge s frag_offset payload_len mf_flag pool_free =
    if ltb payload_len 1
    then ok (drop_with drop_bounds s)
    else if ltb reasm_buf_size (frag_offset + payload_len)
    then ok (drop_with drop_bounds s)
    else if mf_flag == 1 && not (payload_len % 8 == 0)
    then ok (drop_with drop_nonaligned s)
    else if s.active
    then accept s frag_offset payload_len mf_flag
    else if pool_free
    then accept fresh frag_offset payload_len mf_flag
    else ok (drop_with drop_no_slot dummy)

unfoldable pub oracle : SlotState → ℕ → ℕ → ℕ → Bool → Result Outcome
unfolding judge
oracle name frag_offset payload_len mf_flag pool_free = do
  (code, flags, total_len, bm) ← slot_pre_state name
  let s : Slot = record {
    active = not (bit_and flags 0x80 == 0);
    have_last = not (bit_and flags 0x01 == 0);
    total_len = total_len;
    bitmap = bm;
  }
  judge s frag_offset payload_len mf_flag pool_free
