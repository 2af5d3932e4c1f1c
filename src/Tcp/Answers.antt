-- ===== src/Tcp/Answers.antt =====
-- When a segment is to be answered, and how: rules for the oracle of scripts/tcp_oracle.py that look at
-- the state, the flags and the data alone, not at its table or its handlers.
use ws_pi.Base.{ℕ, ◌+◌, ◌≡◌, Bool, true, false, ◌==◌, ◌&&◌, not}
use ws_pi.Base.{if◌then◌else◌}
use ws_pi.Tcp.{
  ConnState, Flags, PortMatch, Payload, rst, syn, ack, fin_ack, exact, listen_only, no_match,
  some_data, closed, listen, established, fin_wait_1, fin_wait_2, time_wait, syn_rcvd, tcp_rst,
  tcp_rst_ack, tcp_syn_ack, tcp_ack_flag, tcp_syn, tcp_fin, isn, state_map, flags_map, has_flag,
  seq_of, ack_of, data_bytes_of,
}
use ws_pi.Tcp.Oracle.{Expected, to_nbo_ldr}
use ws_pi.Tcp.Rules.{slot_before}

-- The sequence number behind a segment, SYN and FIN counted.
abbrev pub past_segment : Flags → Payload → ℕ
past_segment f d =
    seq_of d
    + data_bytes_of d
    + (if has_flag (flags_map f) tcp_syn then 1 else 0)
    + (if has_flag (flags_map f) tcp_fin then 1 else 0)

-- The state code stays as the segment found it.
abbrev pub Stays : ConnState → PortMatch → Expected → Type 0
Stays s p e = state_map e.post_state ≡ state_map (slot_before p s)

-- A connection that is open, or opening, takes an acknowledgement; FIN is for one whose peer may still
-- send; a listening socket takes SYN alone.
abbrev pub serves : ConnState → Flags → Bool
serves listen syn = true
serves closed ack = false
serves listen ack = false
serves s ack = true
serves established fin_ack = true
serves fin_wait_1 fin_ack = true
serves fin_wait_2 fin_ack = true
serves time_wait fin_ack = true
serves s f = false

abbrev pub finds_slot : PortMatch → Bool
finds_slot exact = true
finds_slot listen_only = true
finds_slot no_match = false

-- No connection and no listening socket takes the segment, which is no reset itself.
abbrev pub refused : ConnState → Flags → PortMatch → Bool
refused s rst p = false
refused s f p = not (finds_slot p && serves (slot_before p s) f)

abbrev pub opens : ConnState → Flags → PortMatch → Bool
opens s syn p = finds_slot p && state_map (slot_before p s) == state_map listen
opens s f p = false

-- An acknowledgement that brings an established connection data, or a FIN, is to be answered.
abbrev pub calls_for_ack : ConnState → Flags → PortMatch → Payload → Bool
calls_for_ack established ack exact d = not (data_bytes_of d == 0)
calls_for_ack s fin_ack exact d = serves s fin_ack
calls_for_ack s f p d = false

-- A reset, and every other acknowledgement that a connection takes, is not answered.
abbrev pub quiet : ConnState → Flags → PortMatch → Payload → Bool
quiet s rst p d = true
quiet established ack exact d = data_bytes_of d == 0
quiet s ack exact d = serves s ack
quiet s f p d = false

-- The bytes that the connection keeps: of an established connection the data that is next in sequence,
-- and all the data of a segment with a FIN, whatever its sequence number.
abbrev pub data_taken : ConnState → Flags → Payload → ℕ
data_taken established ack some_data = 5
data_taken established fin_ack d = data_bytes_of d
data_taken s f d = 0

-- The number that a FIN takes, which a connection counts once: not in TIME-WAIT.
abbrev pub fin_taken : ConnState → Flags → ℕ
fin_taken established fin_ack = 1
fin_taken fin_wait_1 fin_ack = 1
fin_taken fin_wait_2 fin_ack = 1
fin_taken s f = 0

-- The next number that the connection expects, with the segment received.
abbrev pub received : ConnState → Flags → Payload → ℕ
received s f d = 2 + data_taken s f d + fin_taken s f

-- The length, flags and numbers of what is sent.
pub record Sends (e : Expected) (ret flags seq number : ℕ) : Type 0 where
  pub same_ret : e.ret ≡ ret
  pub same_flags : e.reply_flags ≡ flags
  pub same_seq : e.reply_seq ≡ seq
  pub same_ack : e.reply_ack ≡ number

-- What is sent: nothing; a SYN-ACK that acknowledges the SYN and opens the connection; an
-- acknowledgement of all that the connection has received; a reset. Each where it is due.
pub data Reply (s : ConnState) (f : Flags) (p : PortMatch) (d : Payload) (e : Expected)
    : Type 0 where
  nothing : quiet s f p d ≡ true → Sends e 0 0 0 0 → e.post_rxlen ≡ 0 → Reply s f p d e
  opening :
      opens s f p ≡ true
      → Sends e 62 tcp_syn_ack (to_nbo_ldr isn) (to_nbo_ldr (seq_of d + 1))
      → state_map e.post_state ≡ state_map syn_rcvd
      → Reply s f p d e
  acknowledging :
      calls_for_ack s f p d ≡ true
      → Sends e 54 tcp_ack_flag (to_nbo_ldr (isn + 1)) (to_nbo_ldr (received s f d))
      → e.post_rcv_nxt ≡ received s f d
      → e.post_rxlen ≡ data_taken s f d
      → Reply s f p d e
  resetting_ack :
      refused s f p ≡ true
      → has_flag (flags_map f) tcp_ack_flag ≡ true
      → Sends e 54 tcp_rst (to_nbo_ldr (ack_of p (flags_map f))) 0
      → Stays s p e
      → Reply s f p d e
  resetting :
      refused s f p ≡ true
      → has_flag (flags_map f) tcp_ack_flag ≡ false
      → Sends e 54 tcp_rst_ack 0 (to_nbo_ldr (past_segment f d))
      → Stays s p e
      → Reply s f p d e
