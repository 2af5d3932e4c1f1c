-- ===== src/IcmpHelpers/Reading.antt =====
-- What the predicates on frames say about the parsed frame.
use ws_pi.Base.{
  ℕ, ◌≡◌, ◌↔◌, refl, sym, ◌∙◌, ap, arith, [], ◌∷◌, Bool, true, false, ◌&&◌, ◌==◌, Result, ok, err,
  value_error, os_error, >>=-eq-ok,
}
use ws_pi.Base.Bytes.{Bytes, IpAddr}
use ws_pi.Eth.{EthHeader, parse_eth_header, ethertype_ipv4}
use ws_pi.Ip.{Ipv4Header, parse_ipv4_header}
use ws_pi.Icmp.{IcmpMessage, parse_icmp}
use ws_pi.Frames.{Route}
use ws_pi.TcpHelpers.Parse.{same_bytes, same_ip}
use ws_pi.TcpHelpers.Received.{same_bytes_refl}
use ws_pi.IcmpHelpers.{
  caught, and_then, between_macs, icmp_between, ip_slice, icmp_slice, is_reply_to, matching,
  is_echo_reply_for, Reply, parse_reply,
}

-- The frame parses, runs along the route, and carries an echo reply with the numbers.
pub record IsEchoReply (frame : Bytes) (r : Route) (ident seq : ℕ) : Type 0 where
  pub reply : Reply
  pub parsed : parse_reply frame ≡ ok reply
  pub is_ipv4 : reply.eth.ethertype ≡ ethertype_ipv4
  pub from_mac : reply.eth.src ≡ r.src_mac
  pub to_mac : reply.eth.dst ≡ r.dst_mac
  pub is_icmp : reply.ip.protocol ≡ 1
  pub from_ip : reply.ip.src_ip ≡ r.src_ip
  pub to_ip : reply.ip.dst_ip ≡ r.dst_ip
  pub is_reply : reply.icmp.kind ≡ 0
  pub same_ident : reply.icmp.ident ≡ ident
  pub same_seq : reply.icmp.seq ≡ seq

caught-true : (x : Result Bool) → caught x ≡ ok true → x ≡ ok true
caught-true (ok b) h = h
caught-true (err value_error) h = cc
caught-true (err os_error) h = cc
caught-true (err _) h = cc

and_then-true :
    (b : Bool) (rest : Result Bool) → and_then b rest ≡ ok true → (b ≡ true) × (rest ≡ ok true)
and_then-true true rest h = (refl, h)
and_then-true false rest h = cc

three : (a b c : Bool) → a && b && c ≡ true → (a ≡ true) × (b ≡ true) × (c ≡ true)
three true true true h = (refl, refl, refl)
three true true false h = cc
three true false c h = cc
three false b c h = cc

same_number : (a b : ℕ) → a == b ≡ true → a ≡ b
same_number a b h = ground arith

same_number_refl : (a : ℕ) → a == a ≡ true
same_number_refl a = ground arith

same_bytes-eq : (m n : Bytes) → same_bytes m n ≡ true → m ≡ n
same_bytes-eq [] [] h = refl
same_bytes-eq [] (y ∷ n) h = cc
same_bytes-eq (x ∷ m) [] h = cc
same_bytes-eq (x ∷ m) (y ∷ n) h =
    let (first, _, rest) = three (x == y) true (same_bytes m n) (ground (arith, h)) in
    ap (λ t. t ∷ m) (same_number x y first) ∙ ap (λ t. y ∷ t) (same_bytes-eq m n rest)

abbrev address : ℕ → ℕ → ℕ → ℕ → IpAddr
address a b c d = record { a = a; b = b; c = c; d = d }

two : (a b : Bool) → a && b ≡ true → (a ≡ true) × (b ≡ true)
two true b h = (refl, h)
two false b h = cc

same_parts :
    {a a' b b' c c' d d' : ℕ}
    → a ≡ a'
    → b ≡ b'
    → c ≡ c'
    → d ≡ d'
    → address a b c d ≡ address a' b' c' d'
same_parts ea eb ec ed = rw (ea, eb, ec, ed)

same_ip-eq : (p q : IpAddr) → same_ip p q ≡ true → p ≡ q
same_ip-eq p q h =
    let (front, d) = two _ (p.d == q.d) h in
    let (a, b, c) = three (p.a == q.a) (p.b == q.b) (p.c == q.c) front in
    same_parts (same_number _ _ a) (same_number _ _ b) (same_number _ _ c) (same_number _ _ d)

same_ip_refl : (p : IpAddr) → same_ip p p ≡ true
same_ip_refl p = ground arith

abbrev reply_of : Bytes → EthHeader → Ipv4Header → IcmpMessage → Reply
reply_of frame eth ip icmp = record {
  eth = eth;
  ip = ip;
  icmp = icmp;
  ip_bytes = ip_slice frame;
  icmp_bytes = icmp_slice frame ip;
}

parse_reply-eq_ok :
    (frame : Bytes) (eth : EthHeader) (ip : Ipv4Header) (icmp : IcmpMessage)
    → parse_eth_header frame ≡ ok eth
    → parse_ipv4_header (ip_slice frame) ≡ ok ip
    → parse_icmp (icmp_slice frame ip) ≡ ok icmp
    → parse_reply frame ≡ ok (reply_of frame eth ip icmp)
unfolding parse_reply
parse_reply-eq_ok frame eth ip icmp e1 e2 e3 = rw (e1, e2, e3)

parse_reply-parts :
    (frame : Bytes) (reply : Reply)
    → parse_reply frame ≡ ok reply
    → (parse_eth_header frame ≡ ok reply.eth)
      × (parse_ipv4_header (ip_slice frame) ≡ ok reply.ip)
      × (parse_icmp (icmp_slice frame reply.ip) ≡ ok reply.icmp)
unfolding parse_reply
parse_reply-parts frame reply h =
    let (eth, e1, h1) = >>=-eq-ok (parse_eth_header frame) _ h in
    let (ip, e2, h2) = >>=-eq-ok (parse_ipv4_header (ip_slice frame)) _ h1 in
    let (icmp, e3, h3) = >>=-eq-ok (parse_icmp (icmp_slice frame ip)) _ h2 in
    let same : reply_of frame eth ip icmp ≡ reply = cc in
    let same_ip : ip ≡ reply.ip = ap (λ x. x.ip) same in
    (
      e1 ∙ ap (λ x. ok x.eth) same,
      e2 ∙ ap ok same_ip,
      ap (λ x. parse_icmp (icmp_slice frame x)) (sym same_ip) ∙ (e3 ∙ ap (λ x. ok x.icmp) same),
    )

reading_lem :
    (frame : Bytes) (r : Route) (ident seq : ℕ)
    → is_echo_reply_for frame r ident seq ≡ ok true
    → IsEchoReply frame r ident seq
unfolding is_echo_reply_for matching
reading_lem frame r ident seq h =
    let (eth, e1, h1) = >>=-eq-ok (parse_eth_header frame) _ (caught-true _ h) in
    let (macs, h2) = and_then-true (between_macs r eth) _ h1 in
    let (ip, e2, h3) = >>=-eq-ok (parse_ipv4_header (ip_slice frame)) _ h2 in
    let (ips, h4) = and_then-true (icmp_between r ip) _ h3 in
    let (icmp, e3, h5) = >>=-eq-ok (parse_icmp (icmp_slice frame ip)) _ h4 in
    let tested : is_reply_to ident seq icmp ≡ true = cc in
    let (m1, m2, m3) = three (eth.ethertype == ethertype_ipv4) _ _ macs in
    let (i1, i2, i3) = three (ip.protocol == 1) _ _ ips in
    let (t1, t2, t3) = three (icmp.kind == 0) (icmp.ident == ident) (icmp.seq == seq) tested in
    record {
      reply = reply_of frame eth ip icmp;
      parsed = parse_reply-eq_ok frame eth ip icmp e1 e2 e3;
      is_ipv4 = same_number _ _ m1;
      from_mac = same_bytes-eq _ _ m2;
      to_mac = same_bytes-eq _ _ m3;
      is_icmp = same_number _ _ i1;
      from_ip = same_ip-eq _ _ i2;
      to_ip = same_ip-eq _ _ i3;
      is_reply = same_number _ _ t1;
      same_ident = same_number _ _ t2;
      same_seq = same_number _ _ t3;
    }

taking_lem :
    (frame : Bytes) (r : Route) (ident seq : ℕ)
    → IsEchoReply frame r ident seq
    → is_echo_reply_for frame r ident seq ≡ ok true
unfolding is_echo_reply_for matching
taking_lem frame r ident seq v =
    let (e1, e2, e3) = parse_reply-parts frame v.reply v.parsed in
    rw (
      e1,
      v.is_ipv4,
      v.from_mac,
      v.to_mac,
      same_bytes_refl r.src_mac,
      same_bytes_refl r.dst_mac,
      e2,
      v.is_icmp,
      v.from_ip,
      v.to_ip,
      same_ip_refl r.src_ip,
      same_ip_refl r.dst_ip,
      e3,
      v.is_reply,
      v.same_ident,
      v.same_seq,
      same_number_refl ident,
      same_number_refl seq,
    )

-- `is_echo_reply_for` accepts a frame exactly when `parse_reply` returns its headers, which run along the
-- route in both addresses, with the type of an IPv4 frame and the protocol ICMP, and its message is an
-- echo reply with the identifier and the sequence number.
pub is_echo_reply_for-IsEchoReply :
    (frame : Bytes) (r : Route) (ident seq : ℕ)
    → (is_echo_reply_for frame r ident seq ≡ ok true) ↔ IsEchoReply frame r ident seq
is_echo_reply_for-IsEchoReply frame r ident seq =
    (reading_lem frame r ident seq, taking_lem frame r ident seq)
