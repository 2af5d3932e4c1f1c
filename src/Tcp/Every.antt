-- ===== src/Tcp/Every.antt =====
-- A Boolean test of every combination of the parameters, for proofs by computation.
use ws_pi.Base.{ℕ, ◌==◌, ◌≡◌, Bool, refl, true, false, ◌&&◌, arith}
use ws_pi.Tcp.{
  ConnState, Flags, PortMatch, Payload, SumKind, HeaderKind, closed, listen, syn_rcvd, established,
  close_wait, last_ack, fin_wait_1, fin_wait_2, time_wait, closing, rst, syn, synack, fin_ack, ack,
  no_flags, exact, listen_only, no_match, no_data, some_data, bad_seq, dup_seq, right_sum,
  wrong_sum, right_header, short_frame, bad_doff, doff_overrun,
}

-- A test that holds, taken apart.
pub both : (a b : Bool) → a && b ≡ true → (a ≡ true) × (b ≡ true)
both true b h = (refl, h)
both false b h = cc

pub same : (m n : ℕ) → (m == n) ≡ true → m ≡ n
same m n h = ground (arith, h)

abbrev every_state : (ConnState → Bool) → Bool
every_state f =
    f closed
    && f listen
    && f syn_rcvd
    && f established
    && f close_wait
    && f last_ack
    && f fin_wait_1
    && f fin_wait_2
    && f time_wait
    && f closing

abbrev every_flags : (Flags → Bool) → Bool
every_flags f = f rst && f syn && f synack && f fin_ack && f ack && f no_flags

abbrev every_ports : (PortMatch → Bool) → Bool
every_ports f = f exact && f listen_only && f no_match

abbrev every_payload : (Payload → Bool) → Bool
every_payload f = f no_data && f some_data && f bad_seq && f dup_seq

abbrev every_sum : (SumKind → Bool) → Bool
every_sum f = f right_sum && f wrong_sum

abbrev every_header : (HeaderKind → Bool) → Bool
every_header f = f right_header && f short_frame && f bad_doff && f doff_overrun

state-true : (f : ConnState → Bool) → every_state f ≡ true → (s : ConnState) → f s ≡ true
state-true f h closed = ground (arith, h)
state-true f h listen = ground (arith, h)
state-true f h syn_rcvd = ground (arith, h)
state-true f h established = ground (arith, h)
state-true f h close_wait = ground (arith, h)
state-true f h last_ack = ground (arith, h)
state-true f h fin_wait_1 = ground (arith, h)
state-true f h fin_wait_2 = ground (arith, h)
state-true f h time_wait = ground (arith, h)
state-true f h closing = ground (arith, h)

flags-true : (f : Flags → Bool) → every_flags f ≡ true → (s : Flags) → f s ≡ true
flags-true f h rst = ground (arith, h)
flags-true f h syn = ground (arith, h)
flags-true f h synack = ground (arith, h)
flags-true f h fin_ack = ground (arith, h)
flags-true f h ack = ground (arith, h)
flags-true f h no_flags = ground (arith, h)

ports-true : (f : PortMatch → Bool) → every_ports f ≡ true → (s : PortMatch) → f s ≡ true
ports-true f h exact = ground (arith, h)
ports-true f h listen_only = ground (arith, h)
ports-true f h no_match = ground (arith, h)

payload-true : (f : Payload → Bool) → every_payload f ≡ true → (s : Payload) → f s ≡ true
payload-true f h no_data = ground (arith, h)
payload-true f h some_data = ground (arith, h)
payload-true f h bad_seq = ground (arith, h)
payload-true f h dup_seq = ground (arith, h)

sum-true : (f : SumKind → Bool) → every_sum f ≡ true → (s : SumKind) → f s ≡ true
sum-true f h right_sum = ground (arith, h)
sum-true f h wrong_sum = ground (arith, h)

header-true : (f : HeaderKind → Bool) → every_header f ≡ true → (s : HeaderKind) → f s ≡ true
header-true f h right_header = ground (arith, h)
header-true f h short_frame = ground (arith, h)
header-true f h bad_doff = ground (arith, h)
header-true f h doff_overrun = ground (arith, h)

-- The parameters that a frame depends on.
abbrev pub every_frame : (Flags → PortMatch → Payload → SumKind → HeaderKind → Bool) → Bool
every_frame f =
    every_flags
      λ g. every_ports λ p. every_payload λ d. every_sum λ c. every_header λ h. f g p d c h

abbrev pub every_combo :
    (ConnState → Flags → PortMatch → Payload → SumKind → HeaderKind → Bool) → Bool
every_combo f = every_state λ s. every_frame (f s)

pub frame-true :
    (f : Flags → PortMatch → Payload → SumKind → HeaderKind → Bool)
    → every_frame f ≡ true
    → (g : Flags) (p : PortMatch) (d : Payload) (c : SumKind) (h : HeaderKind) → f g p d c h ≡ true
frame-true f e g p d c h =
    let e1 =
      flags-true
        (λ g. every_ports λ p. every_payload λ d. every_sum λ c. every_header λ h. f g p d c h) e
        g in
    let e2 =
      ports-true (λ p. every_payload λ d. every_sum λ c. every_header λ h. f g p d c h) e1 p in
    let e3 = payload-true (λ d. every_sum λ c. every_header λ h. f g p d c h) e2 d in
    let e4 = sum-true (λ c. every_header λ h. f g p d c h) e3 c in
    header-true (λ h. f g p d c h) e4 h

pub combo-true :
    (f : ConnState → Flags → PortMatch → Payload → SumKind → HeaderKind → Bool)
    → every_combo f ≡ true
    → (s : ConnState) (g : Flags) (p : PortMatch) (d : Payload) (c : SumKind) (h : HeaderKind)
    → f s g p d c h ≡ true
combo-true f e s = frame-true (f s) (state-true (λ s. every_frame (f s)) e s)
