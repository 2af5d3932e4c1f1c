-- ===== src/Reasm/Vector.antt =====
-- scripts/reasm_oracle.py: the fragment's frame and the binary entry of a vector.
use ws_pi.Base.{ℕ, zero, suc, ◌+◌, ◌-◌, ◌/◌, ◌%◌, ◌^◌, [], ◌∷◌, ◌++◌, Bool, true, false, not, ◌==◌}
use ws_pi.Base.{bit_and, bit_or, length, replicate, ltb, if◌then◌else◌}
use ws_pi.Base.{Result, ok, value_error, assertion_error, guard, ◌>>=◌, ◌>>◌}
use ws_pi.Base.Bytes.{Bytes, IpAddr, pack_u8, pack_le16}
use ws_pi.Checksum.{ip_checksum}
use ws_pi.Ip.{pack_header, splice_checksum, ip_frag_offset_mask, ip_flag_mf}
use ws_pi.Reasm.{
  SlotState, Reason, Outcome, slot_pre_state, oracle, ok_complete, ok_incomplete, drop_nonaligned,
  drop_no_slot, drop_overlap, drop_bounds, drop_oversized,
}

abbrev pub our_mac : Bytes
our_mac = 2 ∷ 0 ∷ 0 ∷ 0 ∷ 0 ∷ 1 ∷ []

abbrev pub peer_mac : Bytes
peer_mac = 0xaa ∷ 0xbb ∷ 0xcc ∷ 0xdd ∷ 0xee ∷ 0xff ∷ []

abbrev pub peer_ip : IpAddr
peer_ip = record { a = 10; b = 0; c = 2; d = 2 }

abbrev pub our_ip : IpAddr
our_ip = record { a = 10; b = 0; c = 2; d = 15 }

-- `bytes(((frag_offset + i) & 0xFF) for i in range(payload_len))`
unfoldable pub pattern : ℕ → ℕ → Bytes
pattern frag_offset zero = []
pattern frag_offset (suc n) = (frag_offset % 256) ∷ pattern (frag_offset + 1) n

abbrev pub flags_frag : ℕ → ℕ → ℕ
flags_frag frag_offset mf_flag =
    let offset = bit_and (frag_offset / 2 ^ 3) ip_frag_offset_mask in
    if mf_flag == 0 then offset else bit_or offset ip_flag_mf

unfoldable pub build_fragment_frame : ℕ → ℕ → ℕ → Result Bytes
unfolding pattern
build_fragment_frame frag_offset payload_len mf_flag = do
  let eth = peer_mac ++ (our_mac ++ (0x08 ∷ 0x00 ∷ []))
  ip_hdr ←
      pack_header 0x45 0x00 (20 + payload_len) 0xabcd (flags_frag frag_offset mf_flag) 64 1 peer_ip
        our_ip
  let summed = splice_checksum ip_hdr (ip_checksum ip_hdr)
  ok (eth ++ (summed ++ pattern frag_offset payload_len))

abbrev pub reason_code : Reason → ℕ
reason_code ok_complete = 0
reason_code ok_incomplete = 1
reason_code drop_nonaligned = 2
reason_code drop_no_slot = 3
reason_code drop_overlap = 4
reason_code drop_bounds = 5
reason_code drop_oversized = 6

abbrev pub flag_byte : Bool → ℕ
flag_byte true = 1
flag_byte false = 0

-- The block before the fragment, 40 bytes.
unfoldable pub pre_block : ℕ → Bool → ℕ → ℕ → Bytes → Result Bytes
unfolding pack_u8 pack_le16
pre_block code pool_free pre_flags pre_total_len pre_bm = do
  f0 ← pack_u8 code
  f1 ← pack_u8 pre_flags
  f2 ← pack_le16 pre_total_len
  ok (f0 ++ (flag_byte pool_free ∷ (f1 ++ (255 ∷ (f2 ++ (0 ∷ 0 ∷ pre_bm))))))

-- The length of the frame, the offset, the payload's length, the flag, and the padded frame.
unfoldable pub frag_block : ℕ → Bytes → ℕ → ℕ → ℕ → Result Bytes
unfolding pack_u8 pack_le16
frag_block frame_len frame_padded frag_offset payload_len mf_flag = do
  f0 ← pack_le16 frame_len
  f1 ← pack_le16 frag_offset
  f2 ← pack_le16 payload_len
  f3 ← pack_u8 mf_flag
  ok (f0 ++ (f1 ++ (f2 ++ (f3 ++ (0 ∷ frame_padded)))))

-- What the board is to do and to leave.
unfoldable pub expected_block : Outcome → Result Bytes
unfolding pack_le16
expected_block o = do
  f0 ← pack_le16 o.post.total_len
  ok (
      (if o.ret_nonzero == 0 then 0 else 1)
      ∷ reason_code o.reason
      ∷ flag_byte o.post.active
      ∷ flag_byte o.post.have_last
      ∷ (f0 ++ (0 ∷ 0 ∷ o.post.bitmap)))

-- The frame is padded to 256 bytes and the entry to 384; the `assert`s are guards.
unfoldable pub encode_entry : SlotState → ℕ → ℕ → ℕ → Bool → Result Bytes
unfolding build_fragment_frame pre_block frag_block expected_block
encode_entry slot_state_name frag_offset payload_len mf_flag pool_free = do
  (code, pre_flags, pre_total_len, pre_bm) ← slot_pre_state slot_state_name
  o ← oracle slot_state_name frag_offset payload_len mf_flag pool_free
  frame ← build_fragment_frame frag_offset payload_len mf_flag
  guard (not (ltb 256 (length frame))) value_error
  let frame_padded = frame ++ replicate (256 - length frame) 0
  guard (length frame_padded == 256) assertion_error
  pre_seed ← pre_block code pool_free pre_flags pre_total_len pre_bm
  guard (length pre_seed == 40) assertion_error
  frag ← frag_block (length frame) frame_padded frag_offset payload_len mf_flag
  guard (length frag == 264) assertion_error
  expected ← expected_block o
  guard (length expected == 40) assertion_error
  let blocks = pre_seed ++ (frag ++ expected)
  let entry = blocks ++ replicate (384 - length blocks) 0
  guard (length entry == 384) assertion_error
  ok entry
