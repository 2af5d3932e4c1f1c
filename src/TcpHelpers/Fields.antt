-- ===== src/TcpHelpers/Fields.antt =====
-- The header of a built segment, read back by `parse_tcp_header`.
use ws_pi.Base.{ℕ, ◌+◌, ◌-◌, ◌*◌, ◌/◌, ◌%◌, ◌^◌, ◌≤◌, ◌<◌, ◌≡◌, refl, sym, ◌∙◌, ap, arith}
use ws_pi.Base.{some, [], ◌∷◌, ◌++◌, true, false, length, length-append, take, drop}
use ws_pi.Base.{drop-append_length, take-append_length, drop-drop, ltb, if◌then◌else◌}
use ws_pi.Base.Bytes.{Bytes}
use ws_pi.TcpHelpers.{Segment}
use ws_pi.TcpHelpers.Parse.{TcpHeader, parse_tcp_header}
use ws_pi.TcpHelpers.Packet.{IsSegment, header_len, tcp_bytes, length-tcp_bytes}

-- The header that is read back.
abbrev pub read_of : Segment → ℕ → TcpHeader
read_of s c = record {
  src_port = s.src_port;
  dst_port = s.dst_port;
  seq = s.seq;
  ack = s.ack;
  data_offset = header_len s;
  flags = s.flags;
  window = s.window;
  checksum = c;
  urgent = 0;
  options = s.options;
}

options_at :
    (opts payload : Bytes)
    → (if ltb 20 (20 + length opts)
        then take (0 + (20 + length opts) - 20) (opts ++ payload)
        else [])
      ≡ opts
options_at [] payload = refl
options_at (o ∷ opts) payload =
    let some_options : ltb 20 (20 + length (o ∷ opts)) ≡ true = ground arith in
    let count : 0 + (20 + length (o ∷ opts)) - 20 ≡ length (o ∷ opts) = omega arith in
    rw (some_options, count, take-append_length opts payload)

pub word : (x : ℕ) → x ≤ 0xffff → x / 256 % 256 * 256 + x % 256 ≡ x
word x h = omega arith

pub long :
    (x : ℕ)
    → x < 2 ^ 32
    → x / 2 ^ 24 % 256 * 2 ^ 24 + x / 2 ^ 16 % 256 * 2 ^ 16 + x / 256 % 256 * 256 + x % 256 ≡ x
long x h = omega arith

pub parse_tcp-front :
    (s : Segment)
    → IsSegment s
    → (c : ℕ) → c ≤ 0xffff
    → parse_tcp_header (tcp_bytes s c) 0 ≡ some (read_of s c)
unfolding parse_tcp_header
parse_tcp-front s v c h =
    let offset : header_len s / 4 * 2 ^ 4 / 2 ^ 4 * 4 ≡ header_len s = omega arith in
    let whole : ltb (length (tcp_bytes s c)) 20 ≡ false = ground (arith, length-tcp_bytes s c) in
    rw
      (
        whole,
        offset,
        word s.src_port v.src_port_fits,
        word s.dst_port v.dst_port_fits,
        long s.seq v.seq_fits,
        long s.ack v.ack_fits,
        word s.window v.window_fits,
        word c h,
      )
      (ap (λ read. some (record (read_of s c) { options = read })) (options_at s.options s.payload))

drop-append_add : (pre bytes : Bytes) (n : ℕ) → drop (length pre + n) (pre ++ bytes) ≡ drop n bytes
drop-append_add pre bytes n =
    sym (drop-drop (length pre) n (pre ++ bytes)) ∙ ap (drop n) (drop-append_length pre bytes)

ltb_shift : (k a b : ℕ) → ltb (k + a) (k + b) ≡ ltb a b
ltb_shift k a b = ground arith

-- An offset counts from the front.
pub parse_tcp_header-append :
    (pre bytes : Bytes) → parse_tcp_header (pre ++ bytes) (length pre) ≡ parse_tcp_header bytes 0
unfolding parse_tcp_header
parse_tcp_header-append pre bytes =
    let shift : (x : ℕ) → length pre + x - (length pre + 20) ≡ 0 + x - 20 = λ x. omega arith in
    rw (
      length-append pre bytes,
      ltb_shift (length pre) (length bytes) 20,
      drop-append_add pre bytes 20,
      drop-append_length pre bytes,
      shift,
    )
