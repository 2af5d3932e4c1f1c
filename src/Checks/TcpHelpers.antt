-- ===== src/Checks/TcpHelpers.antt =====
-- The segments and sessions of hw_test/tcp_helpers.py on concrete frames.
use ws_pi.Base.{
  ℕ, ◌≤◌, ◌++◌, ◌+◌, ◌%◌, ◌^◌, ◌≡◌, refl, arith, none, Option, [], ◌∷◌, ok, err, struct_error,
  length,
}
use ws_pi.Base.{replicate}
use ws_pi.Base.Bytes.{Bytes}
use ws_pi.Base.Order.{lt_wf}
use ws_pi.Checksum.{ip_checksum}
use ws_pi.Eth.{parse_eth_header}
use ws_pi.TcpHelpers.Options.{pad_to_four}
use ws_pi.TcpHelpers.Padding.{pad_to_four-aligned}
use ws_pi.TcpHelpers.{Segment, build_tcp_frame}
use ws_pi.TcpHelpers.Parse.{
  TcpHeader, parse_tcp_header, parse_ip_header, is_tcp_from, is_for_ports, is_tcp_between,
  tcp_payload, payload_of,
}
use ws_pi.TcpHelpers.Packet.{IsSegment, tcp_len}
use ws_pi.TcpHelpers.Fields.{read_of}
use ws_pi.TcpHelpers.Received.{IsReceived, build_tcp_frame-IsReceived}
use ws_pi.TcpHelpers.Accounting.{IsReady, Advanced, carrying, send-IsReady}
use ws_pi.TcpHelpers.Session.{
  Session, Exchanged, reverse, defaults, segment_of, connect, send, send_fin, ack_last, syn_ack,
  flag_ack, psh_ack,
}
use ws_pi.TcpHelpers.Exchange.{IsAnswer, opening, connected, connect_exchange, send_fin-overflow}
use ws_pi.Checks.Layers.{route, route-IsRoute}

-- The session just in front of the end of the sequence space.
abbrev session : Session
session = record {
  route = route;
  local_port = 44444;
  remote_port = 80;
  seq = 0xffff_ffff;
  ack = 5;
  peer_window = 0;
}

abbrev unused : Session
unused = record session { seq = 1000; ack = 0 }

-- The SYN-ACK of the peer, with the last sequence number.
abbrev answer : Segment
answer = record {
  src_port = 80;
  dst_port = 44444;
  seq = 0xffff_ffff;
  ack = 1001;
  flags = syn_ack;
  window = 4096;
  payload = [];
  options = [];
}

abbrev answer_frame : Bytes
answer_frame =
    2 ∷ 0 ∷ 0 ∷ 0 ∷ 0 ∷ 1 ∷ 0xaa ∷ 0xbb ∷ 0xcc ∷ 0xdd ∷ 0xee ∷ 0xff ∷ 8 ∷ 0 ∷ 69 ∷ 0 ∷ 0 ∷ 40 ∷ 18
    ∷ 52 ∷ 64 ∷ 0 ∷ 64 ∷ 6 ∷ 16 ∷ 140 ∷ 10 ∷ 0 ∷ 2 ∷ 2 ∷ 10 ∷ 0 ∷ 2 ∷ 15 ∷ 0 ∷ 80 ∷ 173 ∷ 156 ∷ 255
    ∷ 255 ∷ 255 ∷ 255 ∷ 0 ∷ 0 ∷ 3 ∷ 233 ∷ 80 ∷ 18 ∷ 16 ∷ 0 ∷ 213 ∷ 236 ∷ 0 ∷ 0 ∷ []

build_answer : build_tcp_frame (reverse route) answer ≡ ok answer_frame
unfolding build_tcp_frame ip_checksum lt_wf
build_answer = refl

answer_received : IsReceived (reverse route) answer answer_frame
unfolding is_tcp_from is_tcp_between is_for_ports parse_ip_header parse_tcp_header parse_eth_header
    tcp_payload payload_of ip_checksum lt_wf
answer_received = record {
  accepted = refl;
  fields = (54764, refl);
  carried = refl;
  ip_verifies = refl;
  is_ipv4 = refl;
  tcp_verifies = refl;
}

session-IsAnswer : IsAnswer session answer answer_frame
session-IsAnswer = (omega arith, refl, refl, answer_received)

unused-IsAnswer : IsAnswer unused answer answer_frame
unused-IsAnswer = (omega arith, refl, refl, answer_received)

session-IsReady : IsReady session
session-IsReady = record {
  route_valid = route-IsRoute;
  local_fits = omega arith;
  remote_fits = omega arith;
  seq_fits = omega arith;
  ack_fits = omega arith;
}

unused-IsReady : IsReady unused
unused-IsReady = record {
  route_valid = route-IsRoute;
  local_fits = omega arith;
  remote_fits = omega arith;
  seq_fits = omega arith;
  ack_fits = omega arith;
}

-- A data segment with a timestamp's worth of options.
abbrev data_segment : Segment
data_segment = record {
  src_port = 44444;
  dst_port = 80;
  seq = 1001;
  ack = 7;
  flags = psh_ack;
  window = 65535;
  payload = 71 ∷ 69 ∷ 84 ∷ [];
  options = 1 ∷ 1 ∷ 4 ∷ 2 ∷ [];
}

data_segment-IsSegment : IsSegment data_segment
data_segment-IsSegment = record {
  src_port_fits = omega arith;
  dst_port_fits = omega arith;
  seq_fits = omega arith;
  ack_fits = omega arith;
  flags_fit = omega arith;
  window_fits = omega arith;
  options_aligned = refl;
  options_fit = omega arith;
  packet_fits = omega arith;
}

build_tcp_frame-IsReceived_example :
    (frame : Bytes) × (build_tcp_frame route data_segment ≡ ok frame)
    × (length frame ≡ 34 + tcp_len data_segment)
    × IsReceived route data_segment frame
build_tcp_frame-IsReceived_example =
    build_tcp_frame-IsReceived route data_segment route-IsRoute data_segment-IsSegment

send-IsReady_example :
    (o : Exchanged (Option Bytes)) × (send session (71 ∷ 69 ∷ []) (answer_frame ∷ []) ≡ ok o)
    × ((frame : Bytes) × (o.sent ≡ frame ∷ [])
        × IsReceived route (segment_of session psh_ack (carrying (71 ∷ 69 ∷ []))) frame)
    × Advanced session 2 o.reply o.after
    × IsReady o.after
send-IsReady_example =
    send-IsReady session (71 ∷ 69 ∷ []) (answer_frame ∷ []) session-IsReady (omega arith)

connect_exchange_example :
    (o : Exchanged TcpHeader) × (connect unused none (answer_frame ∷ []) ≡ ok o)
    × ((c : ℕ) × (o.reply ≡ read_of answer c))
    × (o.after ≡ connected unused answer)
    × ((syn ack_frame : Bytes) × (o.sent ≡ syn ∷ ack_frame ∷ [])
        × IsReceived route (opening unused) syn
        × IsReceived route (segment_of (connected unused answer) flag_ack defaults) ack_frame)
connect_exchange_example =
    connect_exchange unused answer answer_frame [] unused-IsReady (omega arith) unused-IsAnswer refl

send_fin-overflow_example :
    (o : Exchanged (Option Bytes)) × (send_fin session (answer_frame ∷ []) ≡ ok o)
    × (o.after.seq ≡ 2 ^ 32)
    × (ack_last o.after ≡ err struct_error)
send_fin-overflow_example =
    send_fin-overflow session answer answer_frame [] session-IsReady refl session-IsAnswer

pad_to_four-aligned_example :
    (n : ℕ) × (n ≤ 3)
    × (pad_to_four 3 (1 ∷ 3 ∷ 3 ∷ 7 ∷ 4 ∷ []) ≡ (1 ∷ 3 ∷ 3 ∷ 7 ∷ 4 ∷ []) ++ replicate n 0)
    × (length (pad_to_four 3 (1 ∷ 3 ∷ 3 ∷ 7 ∷ 4 ∷ [])) % 4 ≡ 0)
pad_to_four-aligned_example = pad_to_four-aligned (1 ∷ 3 ∷ 3 ∷ 7 ∷ 4 ∷ [])
