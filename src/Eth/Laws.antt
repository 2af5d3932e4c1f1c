-- ===== src/Eth/Laws.antt =====
-- Round trips of the frames of hw_test/eth_frames.py.
use ws_pi.Base.{ℕ, ◌/◌, ◌%◌, ◌≤◌, ◌≡◌, refl, some, [], ◌∷◌, ◌++◌, arith}
use ws_pi.Base.{length, replicate, ok}
use ws_pi.Base.Bytes.{Bytes, be16, octets, IpAddr, IsIpAddr, six, inet_aton-eq_ok}
use ws_pi.Eth.{build_eth_header, build_eth_frame, parse_eth_header, parse_arp, build_arp_payload}
use ws_pi.Eth.{ethertype_arp, eth_min_frame, arp_op_request, arp_op_reply, zero_mac}
use ws_pi.Eth.{build_arp_request, build_arp_reply}

pub build_eth_header-eq_ok :
    (dst src : Bytes) (t : ℕ)
    → length dst ≡ 6
    → length src ≡ 6
    → t ≤ 0xffff
    → build_eth_header dst src t ≡ ok (dst ++ (src ++ be16 t))
unfolding build_eth_header
build_eth_header-eq_ok dst src t hd hs ht = rw (hd, hs) (ground arith)

parse_eth_header-cons :
    (a b c d e f a' b' c' d' e' f' t : ℕ) (rest : Bytes)
    → t ≤ 0xffff
    → parse_eth_header
        (a ∷ b ∷ c ∷ d ∷ e ∷ f ∷ a' ∷ b' ∷ c' ∷ d' ∷ e' ∷ f' ∷ (t / 256 % 256) ∷ (t % 256) ∷ rest)
      ≡ ok (record {
        dst = a ∷ b ∷ c ∷ d ∷ e ∷ f ∷ [];
        src = a' ∷ b' ∷ c' ∷ d' ∷ e' ∷ f' ∷ [];
        ethertype = t;
      })
unfolding parse_eth_header
parse_eth_header-cons a b c d e f a' b' c' d' e' f' t rest h = ground arith

-- The header's fields are read back whatever follows it.
pub parse_eth_header-append :
    (dst src : Bytes) (t : ℕ) (rest : Bytes)
    → length dst ≡ 6
    → length src ≡ 6
    → t ≤ 0xffff
    → parse_eth_header (dst ++ (src ++ (be16 t ++ rest)))
      ≡ ok (record { dst = dst; src = src; ethertype = t })
parse_eth_header-append dst src t rest hd hs ht =
    let (d0, d1, d2, d3, d4, d5, ed) = six dst hd in
    let (s0, s1, s2, s3, s4, s5, es) = six src hs in
    rw (ed, es) (parse_eth_header-cons d0 d1 d2 d3 d4 d5 s0 s1 s2 s3 s4 s5 t rest ht)

parse_arp-cons :
    (a b c d e f a' b' c' d' e' f' : ℕ) (op : ℕ) (g h i j k l : ℕ) (p : IpAddr)
    (g' h' i' j' k' l' : ℕ) (q : IpAddr) (rest : Bytes)
    → op ≤ 0xffff
    → parse_arp (
        a
        ∷ b
        ∷ c
        ∷ d
        ∷ e
        ∷ f
        ∷ a'
        ∷ b'
        ∷ c'
        ∷ d'
        ∷ e'
        ∷ f'
        ∷ 8
        ∷ 6
        ∷ 0
        ∷ 1
        ∷ 8
        ∷ 0
        ∷ 6
        ∷ 4
        ∷ (op / 256 % 256)
        ∷ (op % 256)
        ∷ g
        ∷ h
        ∷ i
        ∷ j
        ∷ k
        ∷ l
        ∷ p.a
        ∷ p.b
        ∷ p.c
        ∷ p.d
        ∷ g'
        ∷ h'
        ∷ i'
        ∷ j'
        ∷ k'
        ∷ l'
        ∷ q.a
        ∷ q.b
        ∷ q.c
        ∷ q.d
        ∷ rest)
      ≡ ok (record {
        eth_dst = a ∷ b ∷ c ∷ d ∷ e ∷ f ∷ [];
        eth_src = a' ∷ b' ∷ c' ∷ d' ∷ e' ∷ f' ∷ [];
        opcode = op;
        sha = g ∷ h ∷ i ∷ j ∷ k ∷ l ∷ [];
        spa = p;
        tha = g' ∷ h' ∷ i' ∷ j' ∷ k' ∷ l' ∷ [];
        tpa = q;
      })
unfolding parse_arp
parse_arp-cons a b c d e f a' b' c' d' e' f' op g h i j k l p g' h' i' j' k' l' q rest hop =
    ground arith

build_arp_payload-eq_ok :
    (op : ℕ) (sha : Bytes) (spa : IpAddr) (tha : Bytes) (tpa : IpAddr)
    → op ≤ 0xffff
    → length sha ≡ 6
    → length tha ≡ 6
    → IsIpAddr spa
    → IsIpAddr tpa
    → build_arp_payload op sha spa tha tpa
      ≡ ok (
          0
          ∷ 1
          ∷ 8
          ∷ 0
          ∷ 6
          ∷ 4
          ∷ (op / 256 % 256)
          ∷ (op % 256)
          ∷ (sha ++ (octets spa ++ (tha ++ octets tpa))))
unfolding build_arp_payload
build_arp_payload-eq_ok op sha spa tha tpa hop hs ht hp hq =
    rw (hs, ht, inet_aton-eq_ok spa hp, inet_aton-eq_ok tpa hq) (ground arith)

-- What an ARP frame of 60 bytes holds, for any opcode.
arp_frame :
    (dst src : Bytes) (op : ℕ) (sha : Bytes) (spa : IpAddr) (tha : Bytes) (tpa : IpAddr)
    (arp : Bytes)
    → length dst ≡ 6
    → length src ≡ 6
    → op ≤ 0xffff
    → length sha ≡ 6
    → length tha ≡ 6
    → arp
      ≡ 0
        ∷ 1
        ∷ 8
        ∷ 0
        ∷ 6
        ∷ 4
        ∷ (op / 256 % 256)
        ∷ (op % 256)
        ∷ (sha ++ (octets spa ++ (tha ++ octets tpa)))
    → (frame : Bytes) × (build_eth_frame dst src ethertype_arp arp (some eth_min_frame) ≡ ok frame)
      × (length frame ≡ eth_min_frame)
      × (parse_arp frame
          ≡ ok (record {
            eth_dst = dst;
            eth_src = src;
            opcode = op;
            sha = sha;
            spa = spa;
            tha = tha;
            tpa = tpa;
          }))
unfolding build_eth_frame
arp_frame dst src op sha spa tha tpa arp hd hs hop ha ht e =
    let (d0, d1, d2, d3, d4, d5, ed) = six dst hd in
    let (s0, s1, s2, s3, s4, s5, es) = six src hs in
    let (a0, a1, a2, a3, a4, a5, ea) = six sha ha in
    let (t0, t1, t2, t3, t4, t5, et) = six tha ht in
    rw (e, ed, es, ea, et)
      (
        _,
        refl,
        refl,
        parse_arp-cons d0 d1 d2 d3 d4 d5 s0 s1 s2 s3 s4 s5 op a0 a1 a2 a3 a4 a5 spa t0 t1 t2 t3 t4
            t5 tpa (replicate 18 0) hop,
      )

-- With two 6-byte hardware addresses and two valid IPv4 addresses, `build_arp_request` returns a
-- frame of exactly 60 bytes, and `parse_arp` reads back from it the request opcode, the sender, the
-- zero target hardware address and the target address.
pub parse_arp-build_arp_request :
    (src_mac : Bytes) (src_ip target_ip : IpAddr) (dst_mac : Bytes)
    → length src_mac ≡ 6
    → length dst_mac ≡ 6
    → IsIpAddr src_ip
    → IsIpAddr target_ip
    → (frame : Bytes) × (build_arp_request src_mac src_ip target_ip dst_mac ≡ ok frame)
      × (length frame ≡ eth_min_frame)
      × (parse_arp frame
          ≡ ok (record {
            eth_dst = dst_mac;
            eth_src = src_mac;
            opcode = arp_op_request;
            sha = src_mac;
            spa = src_ip;
            tha = zero_mac;
            tpa = target_ip;
          }))
parse_arp-build_arp_request src_mac src_ip target_ip dst_mac hs hd hp hq =
    unfold build_arp_request in
    rw (build_arp_payload-eq_ok 1 src_mac src_ip zero_mac target_ip (omega arith) hs refl hp hq) (
      arp_frame dst_mac src_mac 1 src_mac src_ip zero_mac target_ip _ hd hs (omega arith) hs refl
        refl)

-- With two 6-byte hardware addresses and two valid IPv4 addresses, `build_arp_reply` returns a frame
-- of exactly 60 bytes, sent to the target, from which `parse_arp` reads back the reply opcode and
-- the four addresses.
pub parse_arp-build_arp_reply :
    (src_mac : Bytes) (src_ip : IpAddr) (target_mac : Bytes) (target_ip : IpAddr)
    → length src_mac ≡ 6
    → length target_mac ≡ 6
    → IsIpAddr src_ip
    → IsIpAddr target_ip
    → (frame : Bytes) × (build_arp_reply src_mac src_ip target_mac target_ip ≡ ok frame)
      × (length frame ≡ eth_min_frame)
      × (parse_arp frame
          ≡ ok (record {
            eth_dst = target_mac;
            eth_src = src_mac;
            opcode = arp_op_reply;
            sha = src_mac;
            spa = src_ip;
            tha = target_mac;
            tpa = target_ip;
          }))
parse_arp-build_arp_reply src_mac src_ip target_mac target_ip hs ht hp hq =
    unfold build_arp_reply in
    rw (build_arp_payload-eq_ok 2 src_mac src_ip target_mac target_ip (omega arith) hs ht hp hq) (
      arp_frame target_mac src_mac 2 src_mac src_ip target_mac target_ip _ ht hs (omega arith) hs ht
        refl)
