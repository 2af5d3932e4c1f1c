-- ===== src/TcpHelpers/Session.antt =====
-- hw_test/tcp_helpers.py: `RawTCPSession`, and `wait_for_frame` of hw_test/wire.py, which it waits
-- with. The frames that the capture shows before the deadline are an argument of every operation that
-- waits, in the order of the capture; an operation returns the frames that it sends.
use ws_pi.Base.{ℕ, ◌+◌, ◌%◌, ◌^◌, Option, none, some, List, [], ◌∷◌, Bool, true, false}
use ws_pi.Base.{length, slice, ltb, ◌==◌, if◌then◌else◌}
use ws_pi.Base.{Result, ok, err, assertion_error, type_error, guard, ◌>>=◌, ◌>>◌}
use ws_pi.Base.Bytes.{Bytes, be16_at}
use ws_pi.Frames.{Route}
use ws_pi.TcpHelpers.{Segment, build_tcp_frame}
use ws_pi.TcpHelpers.Options.{syn_options}
use ws_pi.TcpHelpers.Parse.{TcpHeader, parse_tcp_header, is_tcp_from, tcp_payload, tcp_at}

abbrev pub flag_fin : ℕ
flag_fin = 0x01

abbrev pub flag_syn : ℕ
flag_syn = 0x02

abbrev pub flag_psh : ℕ
flag_psh = 0x08

abbrev pub flag_ack : ℕ
flag_ack = 0x10

abbrev pub syn_ack : ℕ
syn_ack = flag_syn + flag_ack

abbrev pub fin_ack : ℕ
fin_ack = flag_fin + flag_ack

abbrev pub psh_ack : ℕ
psh_ack = flag_psh + flag_ack

abbrev pub ready_probe_ethertype : ℕ
ready_probe_ethertype = 0x88b5

-- A frame that the predicate accepts is returned. An exception of the predicate is swallowed, and the
-- frame is not looked at again.
abbrev pub or_next : Result Bool → Bytes → Option Bytes → Option Bytes
or_next (ok true) found rest = some found
or_next (ok false) found rest = rest
or_next (err raised) found rest = rest

unfoldable pub wait_for_frame : List Bytes → (Bytes → Result Bool) → Option Bytes
wait_for_frame [] predicate = none
wait_for_frame (found ∷ more) predicate =
    let rest = wait_for_frame more predicate in
    if ltb (length found) 14
    then rest
    else if be16_at (slice 12 14 found) == ready_probe_ethertype
    then rest
    else or_next (predicate found) found rest

-- The fields that `__init__` sets, except for the interface and the deadline.
pub record Session : Type 0 where
  pub route : Route
  pub local_port : ℕ
  pub remote_port : ℕ
  pub seq : ℕ
  pub ack : ℕ
  pub peer_window : ℕ

abbrev pub new_session : Route → ℕ → ℕ → Session
new_session route local_port remote_port = record {
  route = route;
  local_port = local_port;
  remote_port = remote_port;
  seq = 1000;
  ack = 0;
  peer_window = 0;
}

-- The addresses of the frames that come back.
abbrev pub reverse : Route → Route
reverse r = record {
  src_mac = r.dst_mac;
  dst_mac = r.src_mac;
  src_ip = r.dst_ip;
  dst_ip = r.src_ip;
}

abbrev pub or_else : Option ℕ → ℕ → ℕ
or_else none default = default
or_else (some given) default = given

-- The arguments of `_build` that have defaults.
pub record Raw : Type 0 where
  pub payload : Bytes
  pub options : Bytes
  pub window : ℕ
  pub seq_override : Option ℕ
  pub ack_override : Option ℕ

abbrev pub defaults : Raw
defaults = record {
  payload = [];
  options = [];
  window = 65535;
  seq_override = none;
  ack_override = none;
}

abbrev pub segment_of : Session → ℕ → Raw → Segment
segment_of s flags x = record {
  src_port = s.local_port;
  dst_port = s.remote_port;
  seq = or_else x.seq_override s.seq;
  ack = or_else x.ack_override s.ack;
  flags = flags;
  window = x.window;
  payload = x.payload;
  options = x.options;
}

unfoldable pub build : Session → ℕ → Raw → Result Bytes
build s flags x = build_tcp_frame s.route (segment_of s flags x)

-- The predicate of `_send_and_recv`.
abbrev pub from_peer : Session → Bytes → Result Bool
from_peer s frame = is_tcp_from frame (reverse s.route) s.remote_port s.local_port

abbrev pub send_and_recv : Session → List Bytes → Option Bytes
send_and_recv s captured = wait_for_frame captured (from_peer s)

-- What an operation returns, the frames that it sent, and the session afterwards.
pub record Exchanged (A : Type 0) : Type 0 where
  pub reply : A
  pub sent : List Bytes
  pub after : Session

-- `assert reply is not None`, and the header of the SYN-ACK. Indexing `None` is a `TypeError`.
unfoldable pub read_syn_ack : Option Bytes → Result TcpHeader
read_syn_ack none = err assertion_error
read_syn_ack (some frame) = checked (parse_tcp_header frame tcp_at)
  where
    checked : Option TcpHeader → Result TcpHeader
    checked none = err type_error
    checked (some sa) = do guard (sa.flags == syn_ack) assertion_error; ok sa

abbrev pub chosen_options : Option Bytes → Result Bytes
chosen_options none = syn_options 1460 7 true
chosen_options (some given) = ok given

unfoldable pub connect : Session → Option Bytes → List Bytes → Result (Exchanged TcpHeader)
unfolding build read_syn_ack
connect s options captured = do
  chosen ← chosen_options options
  syn ← build s flag_syn (record defaults { options = chosen })
  sa ← read_syn_ack (send_and_recv s captured)
  let after = record s { ack = (sa.seq + 1) % 2 ^ 32; seq = s.seq + 1; peer_window = sa.window }
  ack_frame ← build after flag_ack defaults
  ok (record { reply = sa; sent = syn ∷ ack_frame ∷ []; after = after })

-- The session after the reply to `len` bytes of data.
unfoldable pub after_reply : Session → ℕ → Option Bytes → Result Session
after_reply s len none = ok s
after_reply s len (some reply) = do
  payload ← tcp_payload reply
  ok (record s {
    seq = (s.seq + len) % 2 ^ 32;
    ack = if length payload == 0 then s.ack else (s.ack + length payload) % 2 ^ 32;
  })

unfoldable pub send : Session → Bytes → List Bytes → Result (Exchanged (Option Bytes))
unfolding build after_reply
send s bytes captured = do
  frame ← build s psh_ack (record defaults { payload = bytes })
  let reply = send_and_recv s captured
  after ← after_reply s (length bytes) reply
  ok (record { reply = reply; sent = frame ∷ []; after = after })

abbrev pub after_fin : Session → Option Bytes → Session
after_fin s none = s
after_fin s (some reply) = record s { seq = s.seq + 1 }

unfoldable pub send_fin : Session → List Bytes → Result (Exchanged (Option Bytes))
unfolding build
send_fin s captured = do
  frame ← build s fin_ack defaults
  let reply = send_and_recv s captured
  ok (record { reply = reply; sent = frame ∷ []; after = after_fin s reply })

unfoldable pub send_raw : Session → ℕ → Raw → List Bytes → Result (Exchanged (Option Bytes))
unfolding build
send_raw s flags x captured = do
  frame ← build s flags x
  ok (record { reply = send_and_recv s captured; sent = frame ∷ []; after = s })

unfoldable pub send_raw_no_wait : Session → ℕ → Raw → Result (Exchanged (Unit {0}))
unfolding build
send_raw_no_wait s flags x = do
  frame ← build s flags x
  ok (record { reply = tt; sent = frame ∷ []; after = s })

unfoldable pub ack_last : Session → Result (Exchanged (Unit {0}))
unfolding build
ack_last s = do
  frame ← build s flag_ack defaults
  ok (record { reply = tt; sent = frame ∷ []; after = s })
