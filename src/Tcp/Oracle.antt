-- ===== src/Tcp/Oracle.antt =====
-- scripts/tcp_oracle.py: what the board is to answer to a segment.
use ws_pi.Base.{ℕ, ◌+◌, ◌-◌, ◌%◌, ◌^◌, Option, none, some, Bool, true, false, ◌&&◌, ◌==◌, leb}
use ws_pi.Base.{if◌then◌else◌}
use ws_pi.Base.Bytes.{be32, le32_at}
use ws_pi.Tcp.{
  ConnState, Flags, PortMatch, Payload, SumKind, HeaderKind, Event, Handler, Entry, listen,
  syn_rcvd, time_wait, exact, listen_only, no_match, no_data, some_data, bad_seq, dup_seq,
  right_sum, wrong_sum, right_header, evt_rst, listen_syn, moves, conn_close, synrcvd_ack,
  estab_ack, estab_fin, drop, lastack_ack, finwait1_ack, finwait1_fin, finwait2_fin, timewait_fin,
  closing_ack, tcp_fin, tcp_syn, tcp_rst, tcp_ack_flag, tcp_rst_ack, tcp_syn_ack, isn, pre_snd_una,
  pre_snd_nxt, pre_rcv_nxt, flags_map, has_flag, classify_event, fsa_table, seq_of, ack_of,
  data_bytes_of,
}

-- The 8-tuple that `oracle` returns.
pub record Expected : Type 0 where
  pub ret : ℕ
  pub post_state : ConnState
  pub reply_flags : ℕ
  pub reply_seq : ℕ
  pub reply_ack : ℕ
  pub post_rcv_nxt : ℕ
  pub post_rxlen : ℕ
  pub post_snd_una : ℕ

-- The tuple in the order of the code.
abbrev pub tuple : ℕ → ConnState → ℕ → ℕ → ℕ → ℕ → ℕ → ℕ → Expected
tuple ret post_state flags seq number rcv_nxt rxlen snd_una = record {
  ret = ret;
  post_state = post_state;
  reply_flags = flags;
  reply_seq = seq;
  reply_ack = number;
  post_rcv_nxt = rcv_nxt;
  post_rxlen = rxlen;
  post_snd_una = snd_una;
}

-- `struct.unpack('<I', struct.pack('>I', h & 0xFFFFFFFF))[0]`
unfoldable pub to_nbo_ldr : ℕ → ℕ
to_nbo_ldr h = le32_at (be32 (h % 2 ^ 32))

unfoldable pub rst_result : ℕ → ConnState → ℕ → ℕ → ℕ → Expected
rst_result tcp_flags post_state tcp_seq_host tcp_ack_host data_bytes =
    if has_flag tcp_flags tcp_rst
    then tuple 0 post_state 0 0 0 0 0 0
    else if has_flag tcp_flags tcp_ack_flag
    then tuple 54 post_state tcp_rst (to_nbo_ldr tcp_ack_host) 0 0 0 0
    else let seg_len =
        data_bytes
        + (if has_flag tcp_flags tcp_syn then 1 else 0)
        + (if has_flag tcp_flags tcp_fin then 1 else 0) in
      tuple 54 post_state tcp_rst_ack 0 (to_nbo_ldr (tcp_seq_host + seg_len)) 0 0 0

-- `r[:5] + (PRE_RCV_NXT, 0, PRE_SND_UNA)`, where the ports match exactly.
abbrev pub kept : PortMatch → Expected → Expected
kept exact r = record r { post_rcv_nxt = pre_rcv_nxt; post_rxlen = 0; post_snd_una = pre_snd_una }
kept listen_only r = r
kept no_match r = r

-- Nothing is sent and the connection moves to `next_state`.
abbrev pub silent : PortMatch → ConnState → Expected
silent exact next_state = tuple 0 next_state 0 0 0 pre_rcv_nxt 0 pre_snd_una
silent listen_only next_state = tuple 0 next_state 0 0 0 0 0 0
silent no_match next_state = tuple 0 next_state 0 0 0 0 0 0

-- The handler of an established connection for an acknowledgement.
abbrev pub estab_ack_result : ConnState → Payload → Expected
estab_ack_result next_state no_data = tuple 0 next_state 0 0 0 pre_rcv_nxt 0 pre_snd_nxt
estab_ack_result next_state some_data =
    tuple 54 next_state tcp_ack_flag (to_nbo_ldr pre_snd_nxt) (to_nbo_ldr (pre_rcv_nxt + 5))
      (pre_rcv_nxt + 5) 5 pre_snd_nxt
estab_ack_result next_state bad_seq =
    tuple 54 next_state tcp_ack_flag (to_nbo_ldr pre_snd_nxt) (to_nbo_ldr pre_rcv_nxt) pre_rcv_nxt 0
      pre_snd_nxt
estab_ack_result next_state dup_seq =
    tuple 54 next_state tcp_ack_flag (to_nbo_ldr pre_snd_nxt) (to_nbo_ldr pre_rcv_nxt) pre_rcv_nxt 0
      pre_snd_nxt

-- A reply that acknowledges what was received and `rcv_nxt - PRE_RCV_NXT` numbers more.
abbrev pub ack_reply : ConnState → ℕ → ℕ → Expected
ack_reply next_state rcv_nxt rxlen =
    tuple 54 next_state tcp_ack_flag (to_nbo_ldr pre_snd_nxt) (to_nbo_ldr rcv_nxt) rcv_nxt rxlen
      pre_snd_una

-- Step 7, the handlers.
unfoldable pub run_handler : Handler → ConnState → PortMatch → Payload → ℕ → ℕ → ℕ → Expected
run_handler conn_close next_state ports payload tcp_flags tcp_ack_host data_bytes =
    silent ports next_state
run_handler synrcvd_ack next_state ports payload tcp_flags tcp_ack_host data_bytes =
    tuple 0 next_state 0 0 0 pre_rcv_nxt 0 pre_snd_nxt
run_handler estab_ack next_state ports payload tcp_flags tcp_ack_host data_bytes =
    estab_ack_result next_state payload
run_handler estab_fin next_state ports payload tcp_flags tcp_ack_host data_bytes =
    ack_reply next_state (pre_rcv_nxt + data_bytes + 1) data_bytes
run_handler drop next_state ports payload tcp_flags tcp_ack_host data_bytes =
    silent ports next_state
run_handler lastack_ack next_state ports payload tcp_flags tcp_ack_host data_bytes =
    tuple 0 next_state 0 0 0 pre_rcv_nxt 0 pre_snd_una
run_handler finwait1_ack next_state ports payload tcp_flags tcp_ack_host data_bytes =
    tuple 0 next_state 0 0 0 pre_rcv_nxt 0 pre_snd_una
run_handler finwait1_fin next_state ports payload tcp_flags tcp_ack_host data_bytes =
    ack_reply
      (if has_flag tcp_flags tcp_ack_flag && tcp_ack_host == pre_snd_nxt
        then time_wait
        else next_state)
      (pre_rcv_nxt + 1) 0
run_handler finwait2_fin next_state ports payload tcp_flags tcp_ack_host data_bytes =
    ack_reply next_state (pre_rcv_nxt + 1) 0
run_handler timewait_fin next_state ports payload tcp_flags tcp_ack_host data_bytes =
    ack_reply next_state pre_rcv_nxt 0
run_handler closing_ack next_state ports payload tcp_flags tcp_ack_host data_bytes =
    tuple 0 next_state 0 0 0 pre_rcv_nxt 0 pre_snd_una

-- Steps 6 and 7: the table, and the handler that it names.
unfoldable pub dispatch : Option Entry → ConnState → PortMatch → Payload → ℕ → Expected
unfolding run_handler rst_result
dispatch none slot_state ports payload tcp_flags = kept ports (
    rst_result tcp_flags slot_state (seq_of payload) (ack_of ports tcp_flags)
      (data_bytes_of payload))
dispatch (some listen_syn) slot_state ports payload tcp_flags =
    tuple 62 syn_rcvd tcp_syn_ack (to_nbo_ldr isn) (to_nbo_ldr (seq_of payload + 1)) 0 0 0
dispatch (some (moves next_state handler)) slot_state ports payload tcp_flags =
    run_handler handler next_state ports payload tcp_flags (ack_of ports tcp_flags)
      (data_bytes_of payload)

-- Step 5b: `(tcp_seq_host - PRE_RCV_NXT) & 0xFFFFFFFF` is beyond the receive window of 2048.
unfoldable pub beyond_window : ℕ → Bool
beyond_window tcp_seq_host = leb 2048 ((tcp_seq_host + 2 ^ 32 - pre_rcv_nxt) % 2 ^ 32)

abbrev pub is_exact : PortMatch → Bool
is_exact exact = true
is_exact listen_only = false
is_exact no_match = false

-- Steps 5 to 7, with the event of the segment.
unfoldable pub on_event : Option Event → ConnState → PortMatch → Payload → ℕ → Expected
unfolding dispatch beyond_window
on_event none slot_state ports payload tcp_flags = kept ports (
    rst_result tcp_flags slot_state (seq_of payload) (ack_of ports tcp_flags)
      (data_bytes_of payload))
on_event (some evt_rst) slot_state ports payload tcp_flags =
    if is_exact ports && beyond_window (seq_of payload)
    then tuple 0 slot_state 0 0 0 pre_rcv_nxt 0 pre_snd_una
    else dispatch (fsa_table slot_state evt_rst) slot_state ports payload tcp_flags
on_event (some event) slot_state ports payload tcp_flags =
    dispatch (fsa_table slot_state event) slot_state ports payload tcp_flags

-- Steps 3 and 4, on a segment whose header and checksum are right.
abbrev pub looked_up : ConnState → PortMatch → Payload → ℕ → Expected
looked_up state_code exact payload tcp_flags =
    on_event (classify_event tcp_flags) state_code exact payload tcp_flags
looked_up state_code listen_only payload tcp_flags =
    on_event (classify_event tcp_flags) listen listen_only payload tcp_flags
looked_up state_code no_match payload tcp_flags =
    rst_result tcp_flags state_code (seq_of payload) (ack_of no_match tcp_flags)
      (data_bytes_of payload)

unfoldable pub oracle : ConnState → Flags → PortMatch → Payload → SumKind → HeaderKind → Expected
unfolding on_event classify_event fsa_table rst_result
oracle conn_state flags port_match payload right_sum right_header =
    looked_up conn_state port_match payload (flags_map flags)
oracle conn_state flags port_match payload wrong_sum header = tuple 0 conn_state 0 0 0 0 0 0
oracle conn_state flags port_match payload right_sum header = tuple 0 conn_state 0 0 0 0 0 0
