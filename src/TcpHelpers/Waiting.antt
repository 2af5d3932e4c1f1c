-- ===== src/TcpHelpers/Waiting.antt =====
-- What `wait_for_frame` returns, and what is known of a reply that the session accepts.
use ws_pi.Base.{ℕ, ◌≤◌, ◌≡◌, inl, inr, refl, sym, ◌∙◌, ap, arith, Option, none, some, List, [], ◌∷◌}
use ws_pi.Base.{Bool, true, false, length, drop, slice, ltb, ◌==◌, if◌then◌else◌, Option-cases}
use ws_pi.Base.{Result, ok, err}
use ws_pi.Base.Bytes.{Bytes, be16_at}
use ws_pi.Frames.{Route}
use ws_pi.TcpHelpers.{Segment}
use ws_pi.TcpHelpers.Parse.{
  TcpHeader, IpHeader, parse_tcp_header, parse_ip_header, is_tcp_from, is_for_ports, tcp_payload,
  payload_of, tcp_at,
}
use ws_pi.TcpHelpers.Received.{IsReceived}
use ws_pi.TcpHelpers.Session.{wait_for_frame, or_next, ready_probe_ethertype}

-- A result is the frame, or that of the frames behind it.
looked_at :
    {frame found : Bytes} {rest : Option Bytes} (Goal : Type 0)
    → (rest ≡ some found → Goal)
    → (short probe : Bool) (answer : Result Bool) → (answer ≡ ok true → frame ≡ found → Goal)
    → (if short then rest else if probe then rest else or_next answer frame rest) ≡ some found
    → Goal
looked_at Goal behind true probe answer here h = behind h
looked_at Goal behind false true answer here h = behind h
looked_at Goal behind false false (ok false) here h = behind h
looked_at Goal behind false false (err raised) here h = behind h
looked_at Goal behind false false (ok true) here h = here refl cc

pub wait_for_frame-accepted :
    (captured : List Bytes) (predicate : Bytes → Result Bool) (found : Bytes)
    → wait_for_frame captured predicate ≡ some found
    → predicate found ≡ ok true
unfolding wait_for_frame
wait_for_frame-accepted [] predicate found h = cc
wait_for_frame-accepted (frame ∷ more) predicate found h =
    looked_at (predicate found ≡ ok true) (wait_for_frame-accepted more predicate found)
      (ltb (length frame) 14) (be16_at (slice 12 14 frame) == ready_probe_ethertype)
      (predicate frame) (λ e same. ap predicate (sym same) ∙ e) h

-- A frame that the wait accepts comes first.
pub wait_for_frame-first :
    (frame : Bytes) (more : List Bytes) (r : Route) (s : Segment)
    → 14 ≤ length frame
    → IsReceived r s frame
    → wait_for_frame (frame ∷ more) (λ f. is_tcp_from f r s.src_port s.dst_port) ≡ some frame
unfolding wait_for_frame
wait_for_frame-first frame more r s l v =
    let long_enough : ltb (length frame) 14 ≡ false = ground arith in
    rw (long_enough, v.is_ipv4, v.accepted)

-- A frame that is accepted has a TCP header.
pub is_tcp_from-parsed :
    (frame : Bytes) (r : Route) (sp dp : ℕ)
    → is_tcp_from frame r sp dp ≡ ok true
    → (tcp : TcpHeader) × (parse_tcp_header frame tcp_at ≡ some tcp)
unfolding is_tcp_from is_for_ports
is_tcp_from-parsed frame r sp dp h = elim (Option-cases (parse_tcp_header frame tcp_at)) [
  | inl e ↦ absurd (ground (arith, h, e))
  | inr found ↦ found
]

payload_of-total :
    (frame : Bytes) (ip : Option IpHeader) (tcp : TcpHeader)
    → (payload : Bytes) × (payload_of frame ip (some tcp) ≡ ok payload)
unfolding payload_of
payload_of-total frame none tcp = ([], refl)
payload_of-total frame (some ip) tcp = (_, refl)

pub tcp_payload-total :
    (frame : Bytes) (r : Route) (sp dp : ℕ)
    → is_tcp_from frame r sp dp ≡ ok true
    → (payload : Bytes) × (tcp_payload frame ≡ ok payload)
unfolding tcp_payload
tcp_payload-total frame r sp dp h =
    let (tcp, e) = is_tcp_from-parsed frame r sp dp h in
    let (payload, read) = payload_of-total frame (parse_ip_header (drop 14 frame)) tcp in
    (payload, ap (payload_of frame (parse_ip_header (drop 14 frame))) e ∙ read)
