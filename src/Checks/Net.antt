-- ===== src/Checks/Net.antt =====
-- The frames of hw_test/eth_frames.py and hw_test/ip_frames.py on small inputs.
use ws_pi.Base.{◌≡◌, ◌≢◌, refl, arith, [], ◌∷◌}
use ws_pi.Base.{length, replicate, ok}
use ws_pi.Base.Bytes.{Bytes, IpAddr}
use ws_pi.Base.Order.{lt_wf}
use ws_pi.Checksum.{ip_checksum}
use ws_pi.Checksum.Verify.{ip_checksum-damage}
use ws_pi.Eth.{build_arp_request, parse_arp}
use ws_pi.Eth.Laws.{parse_arp-build_arp_request}

abbrev pub our_mac : Bytes
our_mac = 2 ∷ 0 ∷ 0 ∷ 0 ∷ 0 ∷ 1 ∷ []

abbrev pub peer_mac : Bytes
peer_mac = 0xaa ∷ 0xbb ∷ 0xcc ∷ 0xdd ∷ 0xee ∷ 0xff ∷ []

abbrev pub our_ip : IpAddr
our_ip = record { a = 10; b = 0; c = 2; d = 15 }

abbrev pub peer_ip : IpAddr
peer_ip = record { a = 10; b = 0; c = 2; d = 2 }

-- The worked example of RFC 1071.
rfc_1071 : ip_checksum (0x00 ∷ 0x01 ∷ 0xf2 ∷ 0x03 ∷ 0xf4 ∷ 0xf5 ∷ 0xf6 ∷ 0xf7 ∷ []) ≡ 0x220d
unfolding ip_checksum lt_wf
rfc_1071 = refl

parse_arp-build_arp_request_example :
    (frame : Bytes) × (build_arp_request peer_mac peer_ip our_ip (replicate 6 0xff) ≡ ok frame)
    × (length frame ≡ 60)
    × (parse_arp frame
        ≡ ok (record {
          eth_dst = replicate 6 0xff;
          eth_src = peer_mac;
          opcode = 1;
          sha = peer_mac;
          spa = peer_ip;
          tha = replicate 6 0;
          tpa = our_ip;
        }))
parse_arp-build_arp_request_example =
    parse_arp-build_arp_request peer_mac peer_ip our_ip (replicate 6 0xff) refl refl (omega arith)
      (omega arith)

abbrev front : Bytes
front = 0x45 ∷ 0x00 ∷ 0x00 ∷ 0x1c ∷ []

abbrev back : Bytes
back = 10 ∷ 0 ∷ 2 ∷ 15 ∷ []

verifies : ip_checksum (0x12 ∷ 0x34 ∷ 0xed ∷ 0xcb ∷ []) ≡ 0
unfolding ip_checksum lt_wf
verifies = refl

ip_checksum-damage_example : ip_checksum (0x12 ∷ 0x34 ∷ 0xed ∷ 0xca ∷ []) ≢ 0
ip_checksum-damage_example =
    ip_checksum-damage (0x12 ∷ 0x34 ∷ []) [] 0xedcb 0xedca refl (omega arith) (omega arith)
      (omega arith) verifies
