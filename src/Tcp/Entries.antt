-- ===== src/Tcp/Entries.antt =====
-- The frames and the binary entries of the test vectors.
use ws_pi.Base.{ℕ, ◌≡◌, ◌≢◌, ◌⊎◌, inl, inr, refl, arith, Bool, true, false, ◌==◌, ◌&&◌, not, length}
use ws_pi.Base.{Result, ok, err}
use ws_pi.Base.Bytes.{Bytes, pack_u8, pack_le16, pack_le32}
use ws_pi.Base.Order.{lt_wf}
use ws_pi.Checksum.{sum_words, fold, ip_checksum}
use ws_pi.Tcp.{
  ConnState, Flags, PortMatch, Payload, SumKind, HeaderKind, right_sum, wrong_sum, classify_event,
  fsa_table, short_frame, right_header, bad_doff, doff_overrun,
}
use ws_pi.Tcp.Oracle.{
  to_nbo_ldr, rst_result, run_handler, dispatch, beyond_window, on_event, oracle,
}
use ws_pi.Tcp.Sum.{sum_halfwords, tcp_len_nbo, accumulated, tcp_checksum_calc}
use ws_pi.Tcp.Vector.{
  tcp_segment, unsummed_frame, build_frame_v2, pre_seed, padded_frame, entry_header, entry_trailing,
  make_entry,
}
use ws_pi.Tcp.Every.{both, same, every_combo, combo-true, every_frame, frame-true}

abbrev has_size : Result Bytes → Bool
has_size (ok entry) = length entry == 192
has_size (err e) = false

sized :
    (r : Result Bytes) → has_size r ≡ true → (entry : Bytes) × (r ≡ ok entry) × (length entry ≡ 192)
sized (ok entry) h = (entry, refl, ground (arith, h))
sized (err e) h = cc

entries_checked : every_combo (λ s f p d c h. has_size (make_entry s f p d c h)) ≡ true
unfolding make_entry build_frame_v2 tcp_segment unsummed_frame tcp_checksum_calc accumulated
    sum_halfwords tcp_len_nbo ip_checksum fold sum_words lt_wf pre_seed padded_frame entry_header
    entry_trailing pack_u8 pack_le16 pack_le32 oracle on_event dispatch run_handler classify_event
    fsa_table rst_result to_nbo_ldr beyond_window
entries_checked = refl

-- For every combination of the parameters `make_entry` returns an entry, of exactly 192 bytes: every
-- field fits the width at which it is packed.
pub length-make_entry :
    (s : ConnState) (f : Flags) (p : PortMatch) (d : Payload) (c : SumKind) (h : HeaderKind)
    → (entry : Bytes) × (make_entry s f p d c h ≡ ok entry) × (length entry ≡ 192)
length-make_entry s f p d c h =
    sized (make_entry s f p d c h)
      (combo-true (λ s f p d c h. has_size (make_entry s f p d c h)) entries_checked s f p d c h)

-- A frame of the stated length, and what the code's own checksum finds in it: 0 exactly if the
-- checksum was to be right. A short frame of 53 bytes is excepted.
abbrev pub IsReceived : Result (Bytes × ℕ) → SumKind → HeaderKind → Type 0
IsReceived r c h =
    (frame : Bytes) × (len sum : ℕ) × (r ≡ ok (frame, len))
    × (length frame ≡ len)
    × (tcp_checksum_calc frame ≡ ok sum)
    × (((h ≡ short_frame) × (len ≡ 53))
        ⊎ ((sum ≡ 0) × (c ≡ right_sum))
        ⊎ ((sum ≢ 0) × (c ≡ wrong_sum)))

abbrev sum_agrees : ℕ → SumKind → Bool
sum_agrees sum right_sum = sum == 0
sum_agrees sum wrong_sum = not (sum == 0)

abbrev is_received : Result ℕ → Bytes → ℕ → SumKind → HeaderKind → Bool
is_received (err e) frame len c h = false
is_received (ok sum) frame len c short_frame = length frame == len && len == 53
is_received (ok sum) frame len c h = length frame == len && sum_agrees sum c

abbrev frame_received : Result (Bytes × ℕ) → SumKind → HeaderKind → Bool
frame_received (ok (frame, len)) c h = is_received (tcp_checksum_calc frame) frame len c h
frame_received (err e) c h = false

frames_checked : every_frame (λ f p d c h. frame_received (build_frame_v2 f p d c h) c h) ≡ true
unfolding build_frame_v2 tcp_segment unsummed_frame tcp_checksum_calc accumulated sum_halfwords
    tcp_len_nbo ip_checksum fold sum_words lt_wf
frames_checked = refl

sum_of :
    (sum : ℕ) (c : SumKind)
    → sum_agrees sum c ≡ true
    → ((sum ≡ 0) × (c ≡ right_sum)) ⊎ ((sum ≢ 0) × (c ≡ wrong_sum))
sum_of sum right_sum k = inl (same sum 0 k, refl)
sum_of sum wrong_sum k = inr ((λ e. ground (arith, k, e)), refl)

received_long :
    (frame : Bytes) (len sum : ℕ) (c : SumKind) (h : HeaderKind)
    → tcp_checksum_calc frame ≡ ok sum
    → (length frame == len) && sum_agrees sum c ≡ true
    → IsReceived (ok (frame, len)) c h
received_long frame len sum c h e k =
    let (k1, k2) = both (length frame == len) _ k in
    (frame, len, sum, refl, same _ _ k1, e, inr (sum_of sum c k2))

received_sum :
    (frame : Bytes) (len : ℕ) (c : SumKind) (h : HeaderKind) (m : Result ℕ)
    → tcp_checksum_calc frame ≡ m
    → is_received m frame len c h ≡ true
    → IsReceived (ok (frame, len)) c h
received_sum frame len c h (err e) eq k = cc
received_sum frame len c short_frame (ok sum) eq k =
    let (k1, k2) = both (length frame == len) _ k in
    (frame, len, sum, refl, same _ _ k1, eq, inl (refl, same _ _ k2))
received_sum frame len c right_header (ok sum) eq k =
    received_long frame len sum c right_header eq k
received_sum frame len c bad_doff (ok sum) eq k = received_long frame len sum c bad_doff eq k
received_sum frame len c doff_overrun (ok sum) eq k =
    received_long frame len sum c doff_overrun eq k

received :
    (r : Result (Bytes × ℕ)) (c : SumKind) (h : HeaderKind)
    → frame_received r c h ≡ true
    → IsReceived r c h
received (err e) c h k = cc
received (ok (frame, len)) c h k = received_sum frame len c h (tcp_checksum_calc frame) refl k

-- For every combination of the parameters `build_frame_v2` returns a frame with its length. Its TCP
-- checksum comes out as 0 if it was to be right and as another number if it was to be wrong; only the
-- frame that was to be short, of 53 bytes, is excepted.
pub build_frame_v2-IsReceived :
    (f : Flags) (p : PortMatch) (d : Payload) (c : SumKind) (h : HeaderKind)
    → IsReceived (build_frame_v2 f p d c h) c h
build_frame_v2-IsReceived f p d c h = received (build_frame_v2 f p d c h) c h (
    frame-true (λ f p d c h. frame_received (build_frame_v2 f p d c h) c h) frames_checked f p d c
      h)
