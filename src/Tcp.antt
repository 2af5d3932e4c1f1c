-- ===== src/Tcp.antt =====
-- scripts/tcp_oracle.py: the parameters of a test vector, the flags and the table of the state machine.
-- A parameter's texts are the constructors of a data type, so a text outside the enumeration, a
-- `KeyError` of the code, does not arise.
pub mod Oracle
pub mod Sum
pub mod SumLaws
pub mod Vector
pub mod Every
pub mod Rules
pub mod Answers
pub mod Replies
pub mod Order
pub mod Entries
pub mod Combos
use ws_pi.Base.{ℕ, ◌+◌, ◌%◌, ◌^◌, Option, none, some, Bool, true, false, ◌&&◌, ◌||◌, not, ◌==◌}
use ws_pi.Base.{bit_and, bit_or, if◌then◌else◌}

-- The TCPS_ codes 0 to 9, in order.
pub data ConnState : Type 0 where
  closed listen syn_rcvd established close_wait : ConnState
  last_ack fin_wait_1 fin_wait_2 time_wait closing : ConnState

pub data Flags : Type 0 where
  rst syn synack fin_ack ack no_flags : Flags

pub data PortMatch : Type 0 where
  exact listen_only no_match : PortMatch

pub data Payload : Type 0 where
  no_data some_data bad_seq dup_seq : Payload

pub data SumKind : Type 0 where
  right_sum wrong_sum : SumKind

pub data HeaderKind : Type 0 where
  right_header short_frame bad_doff doff_overrun : HeaderKind

abbrev pub tcp_fin : ℕ
tcp_fin = 0x01

abbrev pub tcp_syn : ℕ
tcp_syn = 0x02

abbrev pub tcp_rst : ℕ
tcp_rst = 0x04

abbrev pub tcp_ack_flag : ℕ
tcp_ack_flag = 0x10

abbrev pub tcp_rst_ack : ℕ
tcp_rst_ack = 0x14

abbrev pub tcp_syn_ack : ℕ
tcp_syn_ack = 0x12

abbrev pub isn : ℕ
isn = 0x41424344

abbrev pub pre_snd_una : ℕ
pre_snd_una = isn

abbrev pub pre_snd_nxt : ℕ
pre_snd_nxt = isn + 1

abbrev pub pre_rcv_nxt : ℕ
pre_rcv_nxt = 2

abbrev pub state_map : ConnState → ℕ
state_map closed = 0
state_map listen = 1
state_map syn_rcvd = 2
state_map established = 3
state_map close_wait = 4
state_map last_ack = 5
state_map fin_wait_1 = 6
state_map fin_wait_2 = 7
state_map time_wait = 8
state_map closing = 9

abbrev pub flags_map : Flags → ℕ
flags_map rst = tcp_rst
flags_map syn = tcp_syn
flags_map synack = bit_or tcp_syn tcp_ack_flag
flags_map fin_ack = bit_or tcp_fin tcp_ack_flag
flags_map ack = tcp_ack_flag
flags_map no_flags = 0x00

abbrev pub port_match_code : PortMatch → ℕ
port_match_code exact = 0
port_match_code listen_only = 1
port_match_code no_match = 2

-- The events 0 to 4, in order.
pub data Event : Type 0 where
  evt_rst evt_syn evt_synack evt_fin evt_ack : Event

abbrev pub has_flag : ℕ → ℕ → Bool
has_flag tcp_flags flag = not (bit_and tcp_flags flag == 0)

-- `none` is -1, a segment without a known flag.
unfoldable pub classify_event : ℕ → Option Event
classify_event tcp_flags =
    if has_flag tcp_flags tcp_rst
    then some evt_rst
    else if has_flag tcp_flags tcp_syn
    then (if has_flag tcp_flags tcp_ack_flag then some evt_synack else some evt_syn)
    else if has_flag tcp_flags tcp_fin
    then some evt_fin
    else if has_flag tcp_flags tcp_ack_flag
    then some evt_ack
    else none

pub data Handler : Type 0 where
  conn_close synrcvd_ack estab_ack estab_fin drop lastack_ack : Handler
  finwait1_ack finwait1_fin finwait2_fin timewait_fin closing_ack : Handler

-- An entry of the table: `('listen_syn',)`, or the next state and the handler.
pub data Entry : Type 0 where
  listen_syn : Entry
  moves : ConnState → Handler → Entry

-- `FSA_TABLE`; `none` is `None`.
unfoldable pub fsa_table : ConnState → Event → Option Entry
fsa_table listen evt_syn = some listen_syn
fsa_table syn_rcvd evt_rst = some (moves closed conn_close)
fsa_table syn_rcvd evt_ack = some (moves established synrcvd_ack)
fsa_table established evt_rst = some (moves closed conn_close)
fsa_table established evt_fin = some (moves close_wait estab_fin)
fsa_table established evt_ack = some (moves established estab_ack)
fsa_table close_wait evt_rst = some (moves closed conn_close)
fsa_table close_wait evt_ack = some (moves close_wait drop)
fsa_table last_ack evt_rst = some (moves closed conn_close)
fsa_table last_ack evt_ack = some (moves closed lastack_ack)
fsa_table fin_wait_1 evt_rst = some (moves closed conn_close)
fsa_table fin_wait_1 evt_fin = some (moves closing finwait1_fin)
fsa_table fin_wait_1 evt_ack = some (moves fin_wait_2 finwait1_ack)
fsa_table fin_wait_2 evt_rst = some (moves closed conn_close)
fsa_table fin_wait_2 evt_fin = some (moves time_wait finwait2_fin)
fsa_table fin_wait_2 evt_ack = some (moves fin_wait_2 drop)
fsa_table time_wait evt_rst = some (moves closed conn_close)
fsa_table time_wait evt_fin = some (moves time_wait timewait_fin)
fsa_table time_wait evt_ack = some (moves time_wait drop)
fsa_table closing evt_rst = some (moves closed conn_close)
fsa_table closing evt_ack = some (moves time_wait closing_ack)
fsa_table _ _ = none

-- The sequence number of the segment, the same in `oracle` and in `build_frame_v2`.
abbrev pub seq_of : Payload → ℕ
seq_of some_data = pre_rcv_nxt
seq_of bad_seq = 999
seq_of dup_seq = 0
seq_of no_data = 1

-- Its acknowledgement number.
abbrev pub ack_of : PortMatch → ℕ → ℕ
ack_of exact tcp_flags = if has_flag tcp_flags tcp_ack_flag then pre_snd_nxt else 0
ack_of listen_only tcp_flags = 0
ack_of no_match tcp_flags = 0

abbrev pub data_bytes_of : Payload → ℕ
data_bytes_of no_data = 0
data_bytes_of some_data = 5
data_bytes_of bad_seq = 5
data_bytes_of dup_seq = 5
