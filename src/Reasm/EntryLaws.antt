-- ===== src/Reasm/EntryLaws.antt =====
-- The binary entry of a reassembly vector.
use ws_pi.Base.{ℕ, ◌-◌, ◌*◌, ◌%◌, ◌≤◌, ◌≡◌, ◌≢◌, refl, arith, ◌∷◌, ◌++◌, Bool, false, inl, inr}
use ws_pi.Base.{length, length-append, length-replicate, replicate, ltb, ◌==◌, if◌then◌else◌, ok}
use ws_pi.Base.Bytes.{Bytes, le16, pack_u8, pack_le16}
use ws_pi.Reasm.{
  SlotState, Outcome, empty, first_half, second_half, near_complete, other, slot_pre_state,
  make_bitmap, set_ranges, set_range, set_bit,
}
use ws_pi.Base.{take, drop, append_assoc, drop-append_length, take-append_length, [], sym, ◌∙◌, ap}
use ws_pi.Reasm.Judge.{IsSlot}
use ws_pi.Reasm.States.{oracle-Verdict}
use ws_pi.Reasm.Vector.{pre_block, frag_block, expected_block, encode_entry, flag_byte, reason_code}
use ws_pi.Reasm.Vector.{build_fragment_frame}
use ws_pi.Reasm.FrameLaws.{build_fragment_frame-pattern}

pre_state_fits :
    (name : SlotState)
    → name ≢ other
    → (code flags total_len : ℕ) × (bm : Bytes) × (slot_pre_state name
        ≡ ok (code, flags, total_len, bm))
      × (code ≤ 0xff)
      × (flags ≤ 0xff)
      × (total_len ≤ 0xffff)
      × (length bm ≡ 32)
unfolding slot_pre_state make_bitmap set_ranges set_range set_bit
pre_state_fits empty h = (_, _, _, _, refl, omega arith, omega arith, omega arith, refl)
pre_state_fits first_half h = (_, _, _, _, refl, omega arith, omega arith, omega arith, refl)
pre_state_fits second_half h = (_, _, _, _, refl, omega arith, omega arith, omega arith, refl)
pre_state_fits near_complete h = (_, _, _, _, refl, omega arith, omega arith, omega arith, refl)
pre_state_fits other h = absurd (h refl)

pre_block_size :
    (code : ℕ) (pool_free : Bool) (flags total_len : ℕ) (bm : Bytes)
    → code ≤ 0xff
    → flags ≤ 0xff
    → total_len ≤ 0xffff
    → length bm ≡ 32
    → (block : Bytes) × (pre_block code pool_free flags total_len bm ≡ ok block)
      × (length block ≡ 40)
unfolding pre_block pack_u8 pack_le16
pre_block_size code pool flags total bm h1 h2 h3 h4 = (
  code ∷ flag_byte pool ∷ flags ∷ 255 ∷ (le16 total ++ (0 ∷ 0 ∷ bm)),
  ground arith,
  omega (arith, h4),
)

frag_block_size :
    (len : ℕ) (padded : Bytes) (off payload_len mf : ℕ)
    → len ≤ 0xffff
    → length padded ≡ 256
    → off ≤ 0xffff
    → payload_len ≤ 0xffff
    → mf ≤ 0xff
    → frag_block len padded off payload_len mf
      ≡ ok (le16 len ++ (le16 off ++ (le16 payload_len ++ (mf ∷ 0 ∷ padded))))
unfolding frag_block pack_u8 pack_le16
frag_block_size len padded off payload_len mf h1 h2 h3 h4 h5 = ground arith

expected_block_size :
    (o : Outcome)
    → IsSlot o.post
    → (block : Bytes) × (expected_block o ≡ ok block) × (length block ≡ 40)
unfolding expected_block pack_le16
expected_block_size o v = (
  (if o.ret_nonzero == 0 then 0 else 1)
      ∷ reason_code o.reason
      ∷ flag_byte o.post.active
      ∷ flag_byte o.post.have_last
      ∷ (le16 o.post.total_len ++ (0 ∷ 0 ∷ o.post.bitmap)),
  ground (arith, v.fits),
  omega (arith, v.long),
)

-- A block of 40 bytes, the block of the fragment and another of 40 bytes, padded to the entry.
module _ (pre frame out : Bytes) (off len mf : ℕ) (pre_size : length pre ≡ 40)
    (small : length frame ≤ 256) (out_size : length out ≡ 40) where
  abbrev padded : Bytes
  padded = frame ++ replicate (256 - length frame) 0

  abbrev fragment : Bytes
  fragment = le16 (length frame) ++ (le16 off ++ (le16 len ++ (mf ∷ 0 ∷ padded)))

  abbrev blocks : Bytes
  blocks = pre ++ (fragment ++ out)

  abbrev padding : Bytes
  padding = replicate (384 - length blocks) 0

  length-padded : length padded ≡ 256
  length-padded = omega (
    arith,
    length-append frame (replicate (256 - length frame) 0),
    length-replicate {A = ℕ} (256 - length frame) 0,
    small,
  )

  length-fragment : length fragment ≡ 264
  length-fragment = omega (arith, length-padded)

  length-blocks : length blocks ≡ 344
  length-blocks = omega (
    arith,
    length-append pre (fragment ++ out),
    length-append fragment out,
    length-padded,
    pre_size,
    out_size,
  )

  length-entry : length (blocks ++ padding) ≡ 384
  length-entry = omega (
    arith,
    length-append blocks padding,
    length-replicate {A = ℕ} (384 - length blocks) 0,
    length-blocks,
  )

  -- The frame stands 48 bytes behind the start.
  frame_at : take (length frame) (drop 48 (blocks ++ padding)) ≡ frame
  frame_at =
      let zeros : Bytes = replicate (256 - length frame) 0 in
      let front : Bytes = le16 (length frame) ++ (le16 off ++ (le16 len ++ (mf ∷ 0 ∷ []))) in
      let tail : Bytes = zeros ++ (out ++ padding) in
      let before : length (pre ++ front) ≡ 48 = omega (arith, length-append pre front, pre_size) in
      let parts : blocks ++ padding ≡ (pre ++ front) ++ (frame ++ tail) =
        append_assoc pre (fragment ++ out) padding
        ∙ ap (λ t. pre ++ (front ++ t))
            (append_assoc padded out padding ∙ append_assoc frame zeros (out ++ padding))
        ∙ sym (append_assoc pre front (frame ++ tail)) in
      let behind : drop 48 (blocks ++ padding) ≡ frame ++ tail =
        ap (drop 48) parts
        ∙ ap (λ n. drop n ((pre ++ front) ++ (frame ++ tail))) (sym before)
        ∙ drop-append_length (pre ++ front) (frame ++ tail) in
      ap (take (length frame)) behind ∙ take-append_length frame tail

-- For a named state, an offset that is a multiple of 8 and fits its field, a payload of at most 222
-- bytes and a flag of one byte, every assertion of `encode_entry` holds and it returns an entry of
-- exactly 384 bytes, which carries the built frame from its byte 48 on.
pub length-encode_entry :
    (name : SlotState) (frag_offset payload_len mf_flag : ℕ) (pool_free : Bool)
    → name ≢ other
    → frag_offset ≤ 0x1fff * 8
    → frag_offset % 8 ≡ 0
    → payload_len ≤ 222
    → mf_flag ≤ 0xff
    → (entry frame : Bytes) × (encode_entry name frag_offset payload_len mf_flag pool_free
        ≡ ok entry)
      × (length entry ≡ 384)
      × (build_fragment_frame frag_offset payload_len mf_flag ≡ ok frame)
      × (take (length frame) (drop 48 entry) ≡ frame)
unfolding encode_entry
length-encode_entry name off len mf pool known h a l m =
    elim (oracle-Verdict name off len mf pool) [
      | inl (same, e) ↦ absurd (known same)
      | inr (named, o, judged, verdict, sound) ↦
          let (code, flags, total, bm, seeded, b1, b2, b3, b4) = pre_state_fits name known in
          let (frame, c, built, size, verifies, fields, carried) =
            build_fragment_frame-pattern off len mf h a (omega arith) in
          let (pre, pre_ok, pre_size) = pre_block_size code pool flags total bm b1 b2 b3 b4 in
          let (out, out_ok, out_size) = expected_block_size o sound in
          let small : length frame ≤ 256 = omega (arith, size) in
          let fits : ltb 256 (length frame) ≡ false = ground (arith, size) in
          let pad = length-padded pre frame out off len mf pre_size small out_size in
          let frag_ok =
            frag_block_size (length frame) _ off len mf (omega (arith, size)) pad (omega arith)
              (omega arith) m in
          let whole = length-entry pre frame out off len mf pre_size small out_size in
          (
            blocks pre frame out off len mf pre_size small out_size
                ++ padding pre frame out off len mf pre_size small out_size,
            frame,
            rw (
              seeded,
              judged,
              built,
              fits,
              pad,
              pre_ok,
              pre_size,
              frag_ok,
              length-fragment pre frame out off len mf pre_size small out_size,
              out_ok,
              out_size,
              whole,
            ),
            whole,
            built,
            frame_at pre frame out off len mf pre_size small out_size,
          )
    ]
