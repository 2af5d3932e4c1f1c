-- ===== src/TcpHelpers/Exchange.antt =====
-- A session and the peer that answers it.
use ws_pi.Base.{
  ℕ, ◌+◌, ◌-◌, ◌%◌, ◌^◌, ◌≤◌, ◌<◌, ◌≡◌, refl, sym, arith, Option, none, some, List, [], ◌∷◌,
}
use ws_pi.Base.{true, length, ok, err, struct_error}
use ws_pi.Base.Bytes.{Bytes}
use ws_pi.TcpHelpers.{Segment, build_tcp_frame, build_tcp_packet, build_tcp_segment, pack_tcp}
use ws_pi.TcpHelpers.Options.{syn_options}
use ws_pi.TcpHelpers.Parse.{TcpHeader, parse_tcp_header, tcp_at}
use ws_pi.TcpHelpers.Packet.{IsSegment}
use ws_pi.TcpHelpers.Fields.{read_of}
use ws_pi.TcpHelpers.Received.{IsReceived, build_tcp_frame-IsReceived}
use ws_pi.TcpHelpers.Waiting.{wait_for_frame-first}
use ws_pi.TcpHelpers.Accounting.{IsReady, carrying-IsSegment}
use ws_pi.TcpHelpers.Session.{
  Session, Exchanged, reverse, defaults, segment_of, build, send_and_recv, read_syn_ack, connect,
  send_fin, ack_last, syn_ack, flag_syn, flag_ack, fin_ack,
}

-- The other end of a session, with its own numbers.
abbrev pub answering : Session → ℕ → ℕ → Session
answering s seq ack = record {
  route = reverse s.route;
  local_port = s.remote_port;
  remote_port = s.local_port;
  seq = seq;
  ack = ack;
  peer_window = 0;
}

-- A frame that the other end sends.
abbrev pub IsAnswer : Session → Segment → Bytes → Type 0
IsAnswer s segment frame =
    (14 ≤ length frame)
    × (segment.src_port ≡ s.remote_port)
    × (segment.dst_port ≡ s.local_port)
    × IsReceived (reverse s.route) segment frame

taken_first :
    (s : Session) (segment : Segment) (frame : Bytes) (more : List Bytes)
    → IsAnswer s segment frame
    → send_and_recv s (frame ∷ more) ≡ some frame
taken_first s segment frame more (l, from, to, v) =
    let taken = wait_for_frame-first frame more (reverse s.route) segment l v in
    rw (sym from, sym to) taken

-- The options of a SYN.
abbrev pub default_options : Bytes
default_options = 2 ∷ 4 ∷ 5 ∷ 180 ∷ 1 ∷ 3 ∷ 3 ∷ 7 ∷ 1 ∷ 1 ∷ 4 ∷ 2 ∷ []

syn_options-eq_ok : syn_options 1460 7 true ≡ ok default_options
unfolding syn_options
syn_options-eq_ok = refl

abbrev pub opening : Session → Segment
opening s = segment_of s flag_syn (record defaults { options = default_options })

opening-IsSegment : (s : Session) → IsReady s → IsSegment (opening s)
opening-IsSegment s v = record {
  src_port_fits = v.local_fits;
  dst_port_fits = v.remote_fits;
  seq_fits = v.seq_fits;
  ack_fits = v.ack_fits;
  flags_fit = omega arith;
  window_fits = omega arith;
  options_aligned = refl;
  options_fit = omega arith;
  packet_fits = omega arith;
}

-- The session after the handshake.
abbrev pub connected : Session → Segment → Session
connected s answer = record s {
  seq = s.seq + 1;
  ack = (answer.seq + 1) % 2 ^ 32;
  peer_window = answer.window;
}

pub connected-IsReady :
    (s : Session) (answer : Segment) → IsReady s → s.seq + 1 < 2 ^ 32 → IsReady (connected s answer)
connected-IsReady s answer v h = record {
  route_valid = v.route_valid;
  local_fits = v.local_fits;
  remote_fits = v.remote_fits;
  seq_fits = h;
  ack_fits = omega arith;
}

read_syn_ack-answer :
    (frame : Bytes) (answer : Segment) (c : ℕ)
    → answer.flags ≡ syn_ack
    → parse_tcp_header frame tcp_at ≡ some (read_of answer c)
    → read_syn_ack (some frame) ≡ ok (read_of answer c)
unfolding read_syn_ack
read_syn_ack-answer frame answer c f e = rw (e, f)

-- If the first frame that the capture shows is a SYN-ACK of the peer, `connect` with the default options
-- returns its header. It sent a SYN with the session's number and the options, and then an ACK with the
-- number after it and the number after the peer's, modulo 2^32; the session keeps those numbers and the
-- peer's window. The session's fields fit, and its number is not the last one.
pub connect_exchange :
    (s : Session) (answer : Segment) (frame : Bytes) (more : List Bytes)
    → IsReady s
    → s.seq + 1 < 2 ^ 32
    → IsAnswer s answer frame
    → answer.flags ≡ syn_ack
    → (o : Exchanged TcpHeader) × (connect s none (frame ∷ more) ≡ ok o)
      × ((c : ℕ) × (o.reply ≡ read_of answer c))
      × (o.after ≡ connected s answer)
      × ((syn ack_frame : Bytes) × (o.sent ≡ syn ∷ ack_frame ∷ [])
          × IsReceived s.route (opening s) syn
          × IsReceived s.route (segment_of (connected s answer) flag_ack defaults) ack_frame)
unfolding connect build
connect_exchange s answer frame more v h a f =
    let after = connected s answer in
    let ready = connected-IsReady s answer v h in
    let (syn, built, long, received) =
      build_tcp_frame-IsReceived s.route (opening s) v.route_valid (opening-IsSegment s v) in
    let (ack_frame, built', long', received') =
      build_tcp_frame-IsReceived s.route (segment_of after flag_ack defaults) v.route_valid
        (carrying-IsSegment after flag_ack [] ready (omega arith) (omega arith)) in
    let (enough, from, to, got) = a in
    let (c, fields) = got.fields in
    (
      record { reply = read_of answer c; sent = syn ∷ ack_frame ∷ []; after = after },
      rw (
        syn_options-eq_ok,
        built,
        taken_first s answer frame more a,
        read_syn_ack-answer frame answer c f fields,
        built',
      ),
      (c, refl),
      refl,
      (syn, ack_frame, refl, received, received'),
    )

-- A number that does not fit its field.
build-too_high :
    (s : Session) (flags : ℕ)
    → s.local_port ≤ 0xffff
    → s.remote_port ≤ 0xffff
    → 2 ^ 32 ≤ s.seq
    → build s flags defaults ≡ err struct_error
unfolding build build_tcp_frame build_tcp_packet build_tcp_segment pack_tcp
build-too_high s flags l r h = ground arith

-- `send_fin` adds 1 to `seq` without reducing it: if the session's number is the last one, 2^32 - 1, and
-- the peer answers the FIN, then `send_fin` returns, but the session's number is 2^32 and the next
-- `ack_last` raises `struct.error`.
pub send_fin-overflow :
    (s : Session) (answer : Segment) (frame : Bytes) (more : List Bytes)
    → IsReady s
    → s.seq ≡ 2 ^ 32 - 1
    → IsAnswer s answer frame
    → (o : Exchanged (Option Bytes)) × (send_fin s (frame ∷ more) ≡ ok o)
      × (o.after.seq ≡ 2 ^ 32)
      × (ack_last o.after ≡ err struct_error)
unfolding send_fin ack_last build
send_fin-overflow s answer frame more v e a =
    let (fin, built, long, received) =
      build_tcp_frame-IsReceived s.route (segment_of s fin_ack defaults) v.route_valid
        (carrying-IsSegment s fin_ack [] v (omega arith) (omega arith)) in
    let after = record s { seq = s.seq + 1 } in
    (
      record { reply = some frame; sent = fin ∷ []; after = after },
      rw (built, taken_first s answer frame more a),
      omega arith,
      rw (build-too_high after flag_ack v.local_fits v.remote_fits (omega arith)),
    )
