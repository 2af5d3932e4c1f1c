-- ===== src/Tcp/Rules.antt =====
-- The oracle's answers against the rules of RFC 793 and RFC 5961.
use ws_pi.Base.{◌≡◌, ◌≢◌, ◌⊎◌, refl, arith, Bool, true, false}
use ws_pi.Base.{◌==◌}
use ws_pi.Tcp.{
  ConnState, Flags, PortMatch, Payload, SumKind, HeaderKind, rst, exact, listen_only, no_match,
  closed, listen, syn_rcvd, established, close_wait, last_ack, fin_wait_1, fin_wait_2, time_wait,
  closing, right_sum, wrong_sum, right_header, short_frame, bad_doff, doff_overrun, state_map,
  classify_event, fsa_table,
}
use ws_pi.Tcp.Oracle.{
  to_nbo_ldr, rst_result, run_handler, dispatch, beyond_window, on_event, oracle,
}
use ws_pi.Tcp.Every.{every_combo, combo-true}

-- The state of the connection that a segment finds: a listening socket, or the one of the parameters.
abbrev pub slot_before : PortMatch → ConnState → ConnState
slot_before listen_only s = listen
slot_before exact s = s
slot_before no_match s = s

-- May one segment take a connection from one state to the other? The arrows of RFC 793's diagram that
-- a segment causes, those of a reset, and no change.
abbrev pub may_move : ConnState → ConnState → Bool
may_move listen syn_rcvd = true
may_move syn_rcvd established = true
may_move established close_wait = true
may_move last_ack closed = true
may_move fin_wait_1 fin_wait_2 = true
may_move fin_wait_1 closing = true
may_move fin_wait_1 time_wait = true
may_move fin_wait_2 time_wait = true
may_move closing time_wait = true
may_move listen closed = false
may_move s closed = true
may_move s t = state_map s == state_map t

moves_checked :
    every_combo
      (λ s f p d c h. may_move (slot_before p s) (oracle s f p d right_sum right_header).post_state)
    ≡ true
unfolding oracle on_event dispatch run_handler classify_event fsa_table rst_result to_nbo_ldr
    beyond_window
moves_checked = refl

-- On a segment whose header and checksum are right, the state that the oracle predicts is one to which
-- RFC 793 lets a segment take the connection that it finds.
pub oracle-may_move :
    (s : ConnState) (f : Flags) (p : PortMatch) (d : Payload)
    → may_move (slot_before p s) (oracle s f p d right_sum right_header).post_state ≡ true
oracle-may_move s f p d =
    combo-true
      (λ s f p d c h. may_move (slot_before p s) (oracle s f p d right_sum right_header).post_state)
      moves_checked s f p d right_sum right_header

quiet_checked : every_combo (λ s f p d c h. (oracle s rst p d c h).ret == 0) ≡ true
unfolding oracle on_event dispatch run_handler classify_event fsa_table rst_result to_nbo_ldr
    beyond_window
quiet_checked = refl

-- A segment with the RST flag is never answered, whatever the other parameters.
pub oracle-rst :
    (s : ConnState) (p : PortMatch) (d : Payload) (c : SumKind) (h : HeaderKind)
    → (oracle s rst p d c h).ret ≡ 0
oracle-rst s p d c h =
    let e =
      combo-true (λ s f p d c h. (oracle s rst p d c h).ret == 0) quiet_checked s rst p d c h in
    ground (arith, e)

-- A segment whose header or checksum is wrong is not answered and leaves the state.
pub oracle-damaged :
    (s : ConnState) (f : Flags) (p : PortMatch) (d : Payload) (c : SumKind) (h : HeaderKind)
    → (c ≢ right_sum) ⊎ (h ≢ right_header)
    → ((oracle s f p d c h).ret ≡ 0) × ((oracle s f p d c h).post_state ≡ s)
unfolding oracle
oracle-damaged s f p d wrong_sum h wrong = (refl, refl)
oracle-damaged s f p d right_sum right_header wrong = ground (arith, wrong)
oracle-damaged s f p d right_sum short_frame wrong = (refl, refl)
oracle-damaged s f p d right_sum bad_doff wrong = (refl, refl)
oracle-damaged s f p d right_sum doff_overrun wrong = (refl, refl)
