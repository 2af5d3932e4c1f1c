-- ===== src/IcmpHelpers.antt =====
-- hw_test/icmp_helpers.py: the predicates on captured frames, and the one echo that waits for its reply.
pub mod Reading
use ws_pi.Base.{ℕ, ◌+◌, Option, List, [], ◌∷◌, Bool, true, false, ◌&&◌, slice, ◌==◌, if◌then◌else◌}
use ws_pi.Base.{
  Result, ok, err, value_error, struct_error, os_error, index_error, assertion_error, type_error,
  out_of_fuel, ◌>>=◌,
}
use ws_pi.Base.Bytes.{Bytes, IpAddr}
use ws_pi.Eth.{EthHeader, parse_eth_header, ethertype_ipv4}
use ws_pi.Ip.{Ipv4Header, parse_ipv4_header, ip_proto_icmp}
use ws_pi.Icmp.{IcmpMessage, parse_icmp}
use ws_pi.Frames.{Route, build_icmp_echo_frame}
use ws_pi.TcpHelpers.Parse.{same_bytes, same_ip}
use ws_pi.TcpHelpers.Session.{wait_for_frame, reverse}

abbrev pub icmp_echo_reply : ℕ
icmp_echo_reply = 0

-- `except (ValueError, OSError): return False`
abbrev pub caught : Result Bool → Result Bool
caught (ok answer) = ok answer
caught (err value_error) = ok false
caught (err os_error) = ok false
caught (err struct_error) = err struct_error
caught (err index_error) = err index_error
caught (err assertion_error) = err assertion_error
caught (err type_error) = err type_error
caught (err out_of_fuel) = err out_of_fuel

-- `if not holds: return False`
abbrev pub and_then : Bool → Result Bool → Result Bool
and_then false rest = ok false
and_then true rest = rest

-- The route is that of the frames from the board.
abbrev pub between_macs : Route → EthHeader → Bool
between_macs r eth =
    (eth.ethertype == ethertype_ipv4)
    && same_bytes eth.src r.src_mac
    && same_bytes eth.dst r.dst_mac

abbrev pub icmp_between : Route → Ipv4Header → Bool
icmp_between r ip =
    (ip.protocol == ip_proto_icmp) && same_ip ip.src_ip r.src_ip && same_ip ip.dst_ip r.dst_ip

abbrev pub ip_slice : Bytes → Bytes
ip_slice frame = slice 14 (14 + 20) frame

abbrev pub icmp_slice : Bytes → Ipv4Header → Bytes
icmp_slice frame ip = slice (14 + 20) (14 + ip.total_length) frame

abbrev pub is_reply_to : ℕ → ℕ → IcmpMessage → Bool
is_reply_to ident seq icmp =
    (icmp.kind == icmp_echo_reply) && (icmp.ident == ident) && (icmp.seq == seq)

-- The frame's headers, one behind the other, as far as the checks hold.
unfoldable pub matching : Bytes → Route → (IcmpMessage → Bool) → Result Bool
matching frame r test = do
  eth ← parse_eth_header frame
  and_then (between_macs r eth) (do
    ip ← parse_ipv4_header (ip_slice frame)
    and_then (icmp_between r ip) (do icmp ← parse_icmp (icmp_slice frame ip); ok (test icmp)))

unfoldable pub is_echo_reply_for : Bytes → Route → ℕ → ℕ → Result Bool
unfolding matching
is_echo_reply_for frame r ident seq = caught (matching frame r (is_reply_to ident seq))

unfoldable pub is_any_echo_reply_from_pi : Bytes → Route → Result Bool
unfolding matching
is_any_echo_reply_from_pi frame r = caught (matching frame r (λ icmp. icmp.kind == icmp_echo_reply))

-- The destination address is not looked at.
unfoldable pub is_any_icmp_from_pi : Bytes → Route → Result Bool
is_any_icmp_from_pi frame r = caught (do
  eth ← parse_eth_header frame
  and_then (between_macs r eth) (do
    ip ← parse_ipv4_header (ip_slice frame)
    ok ((ip.protocol == ip_proto_icmp) && same_ip ip.src_ip r.src_ip)))

pub record Reply : Type 0 where
  pub eth : EthHeader
  pub ip : Ipv4Header
  pub icmp : IcmpMessage
  pub ip_bytes : Bytes
  pub icmp_bytes : Bytes

unfoldable pub parse_reply : Bytes → Result Reply
parse_reply frame = do
  eth ← parse_eth_header frame
  ip ← parse_ipv4_header (ip_slice frame)
  icmp ← parse_icmp (icmp_slice frame ip)
  ok (record {
    eth = eth;
    ip = ip;
    icmp = icmp;
    ip_bytes = ip_slice frame;
    icmp_bytes = icmp_slice frame ip;
  })

-- The route is that of the request. The frame that is sent, and the reply among the captured ones.
unfoldable pub send_echo_and_wait :
    Route → ℕ → ℕ → Bytes → Bool → ℕ → ℕ → List Bytes → Result (Bytes × Option Bytes)
unfolding build_icmp_echo_frame is_echo_reply_for wait_for_frame
send_echo_and_wait r ident seq payload df ip_ident ttl captured = do
  frame ← build_icmp_echo_frame r ident seq payload ttl ip_ident df false false
  ok (frame, wait_for_frame captured (λ seen. is_echo_reply_for seen (reverse r) ident seq))
