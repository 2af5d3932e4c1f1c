-- ===== src/Tcp/Combos.antt =====
-- scripts/tcp_oracle.py: which combinations of the parameters make a test vector.
use ws_pi.Base.{◌≡◌, refl, Bool, true, false, not, ◌&&◌, ◌||◌, ◌==◌, if◌then◌else◌}
use ws_pi.Tcp.{
  ConnState, Flags, PortMatch, Payload, SumKind, HeaderKind, closed, listen, established, ack,
  exact, listen_only, no_match, no_data, bad_seq, dup_seq, right_sum, wrong_sum, right_header,
  state_map, flags_map, port_match_code,
}
use ws_pi.Tcp.Every.{every_combo, combo-true}

abbrev is_state : ConnState → ConnState → Bool
is_state s t = state_map s == state_map t

abbrev is_flags : Flags → Flags → Bool
is_flags f g = flags_map f == flags_map g

abbrev is_ports : PortMatch → PortMatch → Bool
is_ports p q = port_match_code p == port_match_code q

abbrev is_none : Payload → Bool
is_none no_data = true
is_none _ = false

-- `payload == 'bad_seq'` or `payload == 'dup_seq'`
abbrev is_shifted : Payload → Bool
is_shifted bad_seq = true
is_shifted dup_seq = true
is_shifted _ = false

abbrev is_right_sum : SumKind → Bool
is_right_sum right_sum = true
is_right_sum wrong_sum = false

abbrev is_right_header : HeaderKind → Bool
is_right_header right_header = true
is_right_header _ = false

-- The early returns in the order of the code. Its last test, on `payload`, never fails there.
unfoldable pub is_valid_combo :
    ConnState → Flags → PortMatch → Payload → SumKind → HeaderKind → Bool
is_valid_combo s f p d c h =
    if not (is_right_header h)
    then (if not (is_state s closed) || not (is_flags f ack) || not (is_ports p no_match)
        then false
        else if not (is_none d) || not (is_right_sum c)
        then false
        else true)
    else if not (is_right_sum c)
    then (if not (is_state s closed) || not (is_flags f ack) || not (is_ports p no_match)
        then false
        else if not (is_none d)
        then false
        else true)
    else if is_ports p exact && (is_state s closed || is_state s listen)
    then false
    else if is_ports p listen_only && not (is_state s listen || is_state s closed)
    then false
    else if is_ports p no_match && not (is_state s closed)
    then false
    else if is_shifted d && not (is_state s established && is_flags f ack && is_ports p exact)
    then false
    else if not (is_none d) && (not (is_right_header h) || not (is_right_sum c))
    then false
    else true

-- A connection that the ports can find in that state.
abbrev matches : PortMatch → ConnState → Bool
matches exact closed = false
matches exact listen = false
matches exact s = true
matches listen_only listen = true
matches no_match closed = true
matches listen_only closed = true
matches p s = false

-- The generated combinations by their four kinds: a wrong header; a wrong checksum, each alone and on
-- otherwise fixed parameters; an acknowledgement with a wrong sequence number on an established
-- connection; any flags, with or without data, on a connection that the ports can find.
abbrev pub generated : ConnState → Flags → PortMatch → Payload → SumKind → HeaderKind → Bool
generated s f p d right_sum right_header =
    if is_shifted d
    then is_state s established && is_flags f ack && is_ports p exact
    else matches p s
generated closed ack no_match no_data wrong_sum right_header = true
generated s f p d wrong_sum h = false
generated closed ack no_match no_data right_sum h = true
generated s f p d right_sum h = false

abbrev agree : Bool → Bool → Bool
agree true b = b
agree false b = not b

agree-eq : (a b : Bool) → agree a b ≡ true → a ≡ b
agree-eq true true h = refl
agree-eq true false h = cc
agree-eq false true h = cc
agree-eq false false h = refl

combos_checked :
    every_combo (λ s f p d c h. agree (is_valid_combo s f p d c h) (generated s f p d c h)) ≡ true
unfolding is_valid_combo
combos_checked = refl

-- `is_valid_combo` accepts exactly the combinations of the four kinds of `generated`.
pub is_valid_combo-generated :
    (s : ConnState) (f : Flags) (p : PortMatch) (d : Payload) (c : SumKind) (h : HeaderKind)
    → is_valid_combo s f p d c h ≡ generated s f p d c h
is_valid_combo-generated s f p d c h =
    agree-eq (is_valid_combo s f p d c h) (generated s f p d c h) (
      combo-true (λ s f p d c h. agree (is_valid_combo s f p d c h) (generated s f p d c h))
        combos_checked s f p d c h)
