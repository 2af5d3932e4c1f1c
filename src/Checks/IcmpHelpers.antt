-- ===== src/Checks/IcmpHelpers.antt =====
-- The predicate of hw_test/icmp_helpers.py on an echo reply, and a MAC address as text.
use ws_pi.Base.{ℕ, Option, none, ◌≡◌, ◌↔◌, refl, arith, [], ◌∷◌, ok, true}
use ws_pi.Base.Bytes.{Bytes}
use ws_pi.Base.Texts.{Text}
use ws_pi.Eth.{parse_eth_header}
use ws_pi.Eth.Mac.{mac_bytes_to_str, mac_str_to_bytes, mac_str_to_bytes-mac_bytes_to_str}
use ws_pi.Ip.{parse_ipv4_header}
use ws_pi.Icmp.{parse_icmp}
use ws_pi.TcpHelpers.Session.{reverse}
use ws_pi.IcmpHelpers.{is_echo_reply_for}
use ws_pi.IcmpHelpers.Reading.{IsEchoReply, is_echo_reply_for-IsEchoReply}
use ws_pi.Checks.Net.{peer_mac}
use ws_pi.Checks.Layers.{route}

-- An echo reply with the identifier 7 and the sequence number 1.
abbrev echo_reply : Bytes
echo_reply =
    2 ∷ 0 ∷ 0 ∷ 0 ∷ 0 ∷ 1 ∷ 0xaa ∷ 0xbb ∷ 0xcc ∷ 0xdd ∷ 0xee ∷ 0xff ∷ 8 ∷ 0 ∷ 69 ∷ 0 ∷ 0 ∷ 28 ∷ 0
    ∷ 0 ∷ 64 ∷ 0 ∷ 64 ∷ 1 ∷ 0x22 ∷ 0xd1 ∷ 10 ∷ 0 ∷ 2 ∷ 2 ∷ 10 ∷ 0 ∷ 2 ∷ 15 ∷ 0 ∷ 0 ∷ 0xff ∷ 0xf7 ∷ 0
    ∷ 7 ∷ 0 ∷ 1 ∷ []

echo_reply-accepted : is_echo_reply_for echo_reply (reverse route) 7 1 ≡ ok true
unfolding is_echo_reply_for parse_eth_header parse_ipv4_header parse_icmp
echo_reply-accepted = refl

is_echo_reply_for-IsEchoReply_example :
    (is_echo_reply_for echo_reply (reverse route) 7 1 ≡ ok true)
    ↔ IsEchoReply echo_reply (reverse route) 7 1
is_echo_reply_for-IsEchoReply_example = is_echo_reply_for-IsEchoReply echo_reply (reverse route) 7 1

abbrev no_other : ℕ → Option ℕ
no_other c = none

mac_str_to_bytes-mac_bytes_to_str_example :
    (text : Text) × (mac_bytes_to_str peer_mac ≡ ok text)
    × (mac_str_to_bytes no_other text ≡ ok peer_mac)
mac_str_to_bytes-mac_bytes_to_str_example =
    mac_str_to_bytes-mac_bytes_to_str no_other peer_mac refl
      (omega arith, (omega arith, (omega arith, (omega arith, (omega arith, (omega arith, tt))))))
