-- ===== src/Tcp/Replies.antt =====
-- What the oracle's replies carry.
use ws_pi.Base.{ℕ, ◌+◌, ◌≡◌, ◌⊎◌, inl, inr, refl, Bool, true, false, ◌==◌, ◌&&◌, ◌||◌, not}
use ws_pi.Tcp.{
  ConnState, Flags, PortMatch, Payload, syn_rcvd, right_sum, right_header, tcp_rst, tcp_rst_ack,
  tcp_syn_ack, tcp_ack_flag, isn, state_map, flags_map, has_flag, seq_of, ack_of, classify_event,
  fsa_table,
}
use ws_pi.Tcp.Oracle.{
  Expected, to_nbo_ldr, rst_result, run_handler, dispatch, beyond_window, on_event, oracle,
}
use ws_pi.Tcp.Every.{both, same, every_combo, combo-true}
use ws_pi.Tcp.Rules.{slot_before}
use ws_pi.Tcp.Answers.{
  past_segment, refused, opens, calls_for_ack, quiet, data_taken, received, Sends, Reply, nothing,
  opening, acknowledging, resetting_ack, resetting,
}

abbrev sends : Expected → ℕ → ℕ → ℕ → ℕ → Bool
sends e ret flags seq number =
    e.ret == ret && (e.reply_flags == flags && (e.reply_seq == seq && e.reply_ack == number))

abbrev is_nothing : ConnState → Flags → PortMatch → Payload → Expected → Bool
is_nothing s f p d e = quiet s f p d && (sends e 0 0 0 0 && e.post_rxlen == 0)

abbrev is_opening : ConnState → Flags → PortMatch → Payload → Expected → Bool
is_opening s f p d e =
    opens s f p
    && (sends e 62 tcp_syn_ack (to_nbo_ldr isn) (to_nbo_ldr (seq_of d + 1))
        && state_map e.post_state == state_map syn_rcvd)

abbrev is_acknowledging : ConnState → Flags → PortMatch → Payload → Expected → Bool
is_acknowledging s f p d e =
    calls_for_ack s f p d
    && (sends e 54 tcp_ack_flag (to_nbo_ldr (isn + 1)) (to_nbo_ldr (received s f d))
        && (e.post_rcv_nxt == received s f d && e.post_rxlen == data_taken s f d))

abbrev stays : ConnState → PortMatch → Expected → Bool
stays s p e = state_map e.post_state == state_map (slot_before p s)

abbrev is_resetting_ack : ConnState → Flags → PortMatch → Expected → Bool
is_resetting_ack s f p e =
    refused s f p
    && (has_flag (flags_map f) tcp_ack_flag
        && (sends e 54 tcp_rst (to_nbo_ldr (ack_of p (flags_map f))) 0 && stays s p e))

abbrev is_resetting : ConnState → Flags → PortMatch → Payload → Expected → Bool
is_resetting s f p d e =
    refused s f p
    && (not (has_flag (flags_map f) tcp_ack_flag)
        && (sends e 54 tcp_rst_ack 0 (to_nbo_ldr (past_segment f d)) && stays s p e))

abbrev is_reply : ConnState → Flags → PortMatch → Payload → Expected → Bool
is_reply s f p d e =
    is_nothing s f p d e
    || (is_opening s f p d e
        || (is_acknowledging s f p d e || (is_resetting_ack s f p e || is_resetting s f p d e)))

either : (a b : Bool) → a || b ≡ true → (a ≡ true) ⊎ (b ≡ true)
either true b h = inl refl
either false b h = inr h

negated : (a : Bool) → not a ≡ true → a ≡ false
negated false h = refl
negated true h = cc

sends-Sends :
    (e : Expected) (ret flags seq number : ℕ)
    → sends e ret flags seq number ≡ true
    → Sends e ret flags seq number
sends-Sends e ret flags seq number k =
    let (k1, r1) = both (e.ret == ret) _ k in
    let (k2, r2) = both (e.reply_flags == flags) _ r1 in
    let (k3, k4) = both (e.reply_seq == seq) _ r2 in
    record {
      same_ret = same _ _ k1;
      same_flags = same _ _ k2;
      same_seq = same _ _ k3;
      same_ack = same _ _ k4;
    }

module _ (s : ConnState) (f : Flags) (p : PortMatch) (d : Payload) (e : Expected) where
  nothing_of : is_nothing s f p d e ≡ true → Reply s f p d e
  nothing_of k =
      let (k1, r1) = both (quiet s f p d) _ k in
      let (k2, k3) = both (sends e 0 0 0 0) _ r1 in
      nothing k1 (sends-Sends e _ _ _ _ k2) (same _ _ k3)

  opening_of : is_opening s f p d e ≡ true → Reply s f p d e
  opening_of k =
      let (k1, r1) = both (opens s f p) _ k in
      let (k2, k3) =
        both (sends e 62 tcp_syn_ack (to_nbo_ldr isn) (to_nbo_ldr (seq_of d + 1))) _ r1 in
      opening k1 (sends-Sends e _ _ _ _ k2) (same _ _ k3)

  acknowledging_of : is_acknowledging s f p d e ≡ true → Reply s f p d e
  acknowledging_of k =
      let (k1, r1) = both (calls_for_ack s f p d) _ k in
      let (k2, r2) =
        both (sends e 54 tcp_ack_flag (to_nbo_ldr (isn + 1)) (to_nbo_ldr (received s f d))) _ r1 in
      let (k3, k4) = both (e.post_rcv_nxt == received s f d) _ r2 in
      acknowledging k1 (sends-Sends e _ _ _ _ k2) (same _ _ k3) (same _ _ k4)

  resetting_ack_of : is_resetting_ack s f p e ≡ true → Reply s f p d e
  resetting_ack_of k =
      let (k1, r1) = both (refused s f p) _ k in
      let (k2, r2) = both (has_flag (flags_map f) tcp_ack_flag) _ r1 in
      let (k3, k4) = both (sends e 54 tcp_rst (to_nbo_ldr (ack_of p (flags_map f))) 0) _ r2 in
      resetting_ack k1 k2 (sends-Sends e _ _ _ _ k3) (same _ _ k4)

  resetting_of : is_resetting s f p d e ≡ true → Reply s f p d e
  resetting_of k =
      let (k1, r1) = both (refused s f p) _ k in
      let (k2, r2) = both (not (has_flag (flags_map f) tcp_ack_flag)) _ r1 in
      let (k3, k4) = both (sends e 54 tcp_rst_ack 0 (to_nbo_ldr (past_segment f d))) _ r2 in
      resetting k1 (negated _ k2) (sends-Sends e _ _ _ _ k3) (same _ _ k4)

  is_reply-Reply : is_reply s f p d e ≡ true → Reply s f p d e
  is_reply-Reply h = elim (either (is_nothing s f p d e) _ h) [
    | inl k ↦ nothing_of k
    | inr h1 ↦ elim (either (is_opening s f p d e) _ h1) [
      | inl k ↦ opening_of k
      | inr h2 ↦ elim (either (is_acknowledging s f p d e) _ h2) [
        | inl k ↦ acknowledging_of k
        | inr h3 ↦ elim (either (is_resetting_ack s f p e) _ h3) [
          | inl k ↦ resetting_ack_of k
          | inr k ↦ resetting_of k
        ]
      ]
    ]
  ]

replies_checked :
    every_combo (λ s f p d c h. is_reply s f p d (oracle s f p d right_sum right_header)) ≡ true
unfolding oracle on_event dispatch run_handler classify_event fsa_table rst_result to_nbo_ldr
    beyond_window
replies_checked = refl

-- To a segment whose header and checksum are right, the oracle predicts the answer that is due.
-- Nothing goes out, and no data is taken, for a reset, or for an acknowledgement that a connection takes
-- and that brings it no data to answer. A SYN to a listening socket gets the SYN-ACK that acknowledges it and opens the
-- connection. Data or a FIN that a connection takes gets an acknowledgement of the data it keeps and of
-- the FIN, which is also what the connection counts as received. Everything else gets a reset that
-- leaves the state, with the segment's acknowledgement number as its sequence number if there is one,
-- and else with an acknowledgement of the whole segment. The reply's length, flags and both numbers are
-- stated in each case.
pub oracle-Reply :
    (s : ConnState) (f : Flags) (p : PortMatch) (d : Payload)
    → Reply s f p d (oracle s f p d right_sum right_header)
oracle-Reply s f p d = is_reply-Reply s f p d (oracle s f p d right_sum right_header) (
    combo-true (λ s f p d c h. is_reply s f p d (oracle s f p d right_sum right_header))
      replies_checked s f p d right_sum right_header)
