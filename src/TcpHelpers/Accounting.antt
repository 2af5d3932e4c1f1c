-- ===== src/TcpHelpers/Accounting.antt =====
-- The sequence numbers of a session, and two sessions that talk to each other.
use ws_pi.Base.{ℕ, ◌+◌, ◌%◌, ◌^◌, ◌≤◌, ◌<◌, ◌≡◌, refl, arith, Option, none, some, List, [], ◌∷◌}
use ws_pi.Base.{true, length, ◌==◌, if◌then◌else◌, ok}
use ws_pi.Base.Bytes.{Bytes}
use ws_pi.Frames.Layers.{IsRoute}
use ws_pi.TcpHelpers.Parse.{tcp_payload}
use ws_pi.TcpHelpers.Packet.{IsSegment}
use ws_pi.TcpHelpers.Received.{IsReceived, build_tcp_frame-IsReceived}
use ws_pi.TcpHelpers.Waiting.{wait_for_frame-accepted, tcp_payload-total}
use ws_pi.TcpHelpers.Session.{
  Session, Raw, Exchanged, reverse, defaults, segment_of, build, from_peer, send_and_recv,
  after_reply, send, psh_ack,
}

-- A session whose fields fit.
pub record IsReady (s : Session) : Type 0 where
  pub route_valid : IsRoute s.route
  pub local_fits : s.local_port ≤ 0xffff
  pub remote_fits : s.remote_port ≤ 0xffff
  pub seq_fits : s.seq < 2 ^ 32
  pub ack_fits : s.ack < 2 ^ 32

abbrev pub carrying : Bytes → Raw
carrying bytes = record defaults { payload = bytes }

pub carrying-IsSegment :
    (s : Session) (flags : ℕ) (bytes : Bytes)
    → IsReady s
    → flags ≤ 0xff
    → 40 + length bytes ≤ 0xffff
    → IsSegment (segment_of s flags (carrying bytes))
carrying-IsSegment s flags bytes v f h = record {
  src_port_fits = v.local_fits;
  dst_port_fits = v.remote_fits;
  seq_fits = v.seq_fits;
  ack_fits = v.ack_fits;
  flags_fit = f;
  window_fits = omega arith;
  options_aligned = refl;
  options_fit = omega arith;
  packet_fits = h;
}

-- The session after `sent` bytes were sent, and a reply of the peer came or did not.
abbrev pub Advanced : Session → ℕ → Option Bytes → Session → Type 0
Advanced s sent none after = after ≡ s
Advanced s sent (some reply) after =
    (payload : Bytes) × (from_peer s reply ≡ ok true)
    × (tcp_payload reply ≡ ok payload)
    × (after ≡ record s { seq = (s.seq + sent) % 2 ^ 32; ack = (s.ack + length payload) % 2 ^ 32 })

ack_none :
    (ack n : ℕ) → ack < 2 ^ 32 → (if n == 0 then ack else (ack + n) % 2 ^ 32) ≡ (ack + n) % 2 ^ 32
ack_none ack n h = ground arith

Advanced-IsReady :
    (s after : Session) (sent : ℕ) (reply : Option Bytes)
    → IsReady s
    → Advanced s sent reply after
    → IsReady after
Advanced-IsReady s after sent none v e = rw e v
Advanced-IsReady s after sent (some reply) v (payload, here, read, e) = rw e (record {
  route_valid = v.route_valid;
  local_fits = v.local_fits;
  remote_fits = v.remote_fits;
  seq_fits = omega arith;
  ack_fits = omega arith;
})

after_reply-total :
    (s : Session) (sent : ℕ) (captured : List Bytes) (reply : Option Bytes)
    → IsReady s
    → send_and_recv s captured ≡ reply
    → (after : Session) × (after_reply s sent reply ≡ ok after) × Advanced s sent reply after
unfolding after_reply
after_reply-total s sent captured none v e = (s, refl, refl)
after_reply-total s sent captured (some reply) v e =
    let here = wait_for_frame-accepted captured (from_peer s) reply e in
    let (payload, read) =
      tcp_payload-total reply (reverse s.route) s.remote_port s.local_port here in
    (
      record s { seq = (s.seq + sent) % 2 ^ 32; ack = (s.ack + length payload) % 2 ^ 32 },
      rw (read, ack_none s.ack (length payload) v.ack_fits),
      (payload, here, read, refl),
    )

-- For a session whose fields fit, data that fits a datagram and whatever the capture shows, `send`
-- returns: it sends one frame, which a receiver reads as a PSH-ACK with the session's numbers and the
-- data; without a reply the session stays as it was; a reply is a frame that `_is_tcp_from` accepts from
-- the peer, and `seq` advances by the data and `ack` by its payload, modulo 2^32. The session's fields
-- still fit.
pub send-IsReady :
    (s : Session) (bytes : Bytes) (captured : List Bytes)
    → IsReady s
    → 40 + length bytes ≤ 0xffff
    → (o : Exchanged (Option Bytes)) × (send s bytes captured ≡ ok o)
      × ((frame : Bytes) × (o.sent ≡ frame ∷ [])
          × IsReceived s.route (segment_of s psh_ack (carrying bytes)) frame)
      × Advanced s (length bytes) o.reply o.after
      × IsReady o.after
unfolding send build
send-IsReady s bytes captured v h =
    let segment = segment_of s psh_ack (carrying bytes) in
    let (frame, built, long, received) =
      build_tcp_frame-IsReceived s.route segment v.route_valid
        (carrying-IsSegment s psh_ack bytes v (omega arith) h) in
    let reply = send_and_recv s captured in
    let (after, advanced, numbers) = after_reply-total s (length bytes) captured reply v refl in
    (
      record { reply = reply; sent = frame ∷ []; after = after },
      rw (built, advanced),
      (frame, refl, received),
      numbers,
      Advanced-IsReady s after (length bytes) reply v numbers,
    )
