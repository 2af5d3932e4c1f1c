-- ===== src/Checks/Tcp.antt =====
-- The TCP oracle of scripts/tcp_oracle.py on concrete vectors.
use ws_pi.Base.{◌≡◌, refl, arith, [], ◌∷◌, ◌++◌, ok, true, length, replicate}
use ws_pi.Base.Bytes.{Bytes, octets}
use ws_pi.Checksum.{ip_checksum}
use ws_pi.Tcp.{
  established, syn_rcvd, syn, ack, exact, some_data, no_data, right_sum, wrong_sum, right_header,
}
use ws_pi.Tcp.Oracle.{oracle}
use ws_pi.Tcp.Sum.{tcp_checksum_calc}
use ws_pi.Tcp.SumLaws.{swap_bytes, tcp_pseudo, tcp_checksum_calc-ip_checksum}
use ws_pi.Tcp.Vector.{build_frame_v2, make_entry}
use ws_pi.Tcp.Rules.{may_move, slot_before, oracle-may_move}
use ws_pi.Tcp.Answers.{Reply}
use ws_pi.Tcp.Replies.{oracle-Reply}
use ws_pi.Tcp.Entries.{IsReceived, length-make_entry, build_frame_v2-IsReceived}
use ws_pi.Checks.Net.{our_ip, peer_ip}

oracle-Reply_example :
    Reply established ack exact some_data
      (oracle established ack exact some_data right_sum right_header)
oracle-Reply_example = oracle-Reply established ack exact some_data

oracle-may_move_example :
    may_move
      (slot_before exact syn_rcvd)
      (oracle syn_rcvd ack exact no_data right_sum right_header).post_state
    ≡ true
oracle-may_move_example = oracle-may_move syn_rcvd ack exact no_data

length-make_entry_example :
    (entry : Bytes) × (make_entry established ack exact some_data right_sum right_header ≡ ok entry)
    × (length entry ≡ 192)
length-make_entry_example = length-make_entry established ack exact some_data right_sum right_header

build_frame_v2-IsReceived_example :
    IsReceived (build_frame_v2 syn exact no_data wrong_sum right_header) wrong_sum right_header
build_frame_v2-IsReceived_example =
    build_frame_v2-IsReceived syn exact no_data wrong_sum right_header

abbrev segment : Bytes
segment = 0x30 ∷ 0x39 ∷ 0x00 ∷ 0x50 ∷ 0x01 ∷ []

tcp_checksum_calc-ip_checksum_example :
    tcp_checksum_calc (replicate 26 0 ++ (octets peer_ip ++ (octets our_ip ++ segment)))
    ≡ ok (swap_bytes (ip_checksum (tcp_pseudo peer_ip our_ip 5 ++ segment)))
tcp_checksum_calc-ip_checksum_example =
    tcp_checksum_calc-ip_checksum (replicate 26 0) peer_ip our_ip segment refl (omega arith)
