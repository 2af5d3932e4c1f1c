-- ===== src/Tcp/Vector.antt =====
-- scripts/tcp_oracle.py: the frames and the binary entries of the test vectors, and which combinations
-- of the parameters are generated.
use ws_pi.Base.{ℕ, ◌+◌, [], ◌∷◌, ◌++◌}
use ws_pi.Base.{
  length, take, drop, get_or, set, replicate, Result, ok, assertion_error, guard, ◌==◌, ◌>>=◌, ◌>>◌,
}
use ws_pi.Base.Bytes.{Bytes, be16, be32, le16, le16_at, le32_at, pack_u8, pack_le16, pack_le32}
use ws_pi.Checksum.{ip_checksum}
use ws_pi.Tcp.{
  ConnState, Flags, PortMatch, Payload, SumKind, HeaderKind, exact, listen_only, no_match, no_data,
  some_data, bad_seq, dup_seq, right_sum, wrong_sum, right_header, short_frame, bad_doff,
  doff_overrun, pre_snd_una, pre_snd_nxt, pre_rcv_nxt, state_map, flags_map, seq_of, ack_of,
  port_match_code,
}
use ws_pi.Tcp.Oracle.{Expected, oracle}
use ws_pi.Tcp.Sum.{tcp_checksum_calc}
use Prim.Native.Nat.{bit_xor}

abbrev pub our_mac : Bytes
our_mac = 2 ∷ 0 ∷ 0 ∷ 0 ∷ 0 ∷ 1 ∷ []

abbrev pub peer_mac : Bytes
peer_mac = 0xaa ∷ 0xbb ∷ 0xcc ∷ 0xdd ∷ 0xee ∷ 0xff ∷ []

abbrev pub peer_ip : Bytes
peer_ip = 10 ∷ 0 ∷ 2 ∷ 2 ∷ []

abbrev pub our_ip : Bytes
our_ip = 10 ∷ 0 ∷ 2 ∷ 15 ∷ []

abbrev pub dport_of : PortMatch → ℕ
dport_of exact = 0x0050
dport_of listen_only = 0x0050
dport_of no_match = 0x270f

abbrev pub data_off_byte : HeaderKind → ℕ
data_off_byte bad_doff = 0x30
data_off_byte doff_overrun = 0x60
data_off_byte right_header = 0x50
data_off_byte short_frame = 0x50

-- "Hello", where the segment has data.
abbrev pub payload_data : Payload → Bytes
payload_data no_data = []
payload_data some_data = 0x48 ∷ 0x65 ∷ 0x6c ∷ 0x6c ∷ 0x6f ∷ []
payload_data bad_seq = 0x48 ∷ 0x65 ∷ 0x6c ∷ 0x6c ∷ 0x6f ∷ []
payload_data dup_seq = 0x48 ∷ 0x65 ∷ 0x6c ∷ 0x6c ∷ 0x6f ∷ []

-- The header with a zero checksum, and the data. Every field fits its width.
unfoldable pub tcp_segment : Flags → PortMatch → Payload → HeaderKind → Bytes
tcp_segment flags port_match payload header =
    let tcp_flags = flags_map flags in
    be16 0x3039
    ++ (be16 (dport_of port_match)
        ++ (be32 (seq_of payload)
            ++ (be32 (ack_of port_match tcp_flags)
                ++ (data_off_byte header
                    ∷ tcp_flags
                    ∷ 0xff
                    ∷ 0xff
                    ∷ 0
                    ∷ 0
                    ∷ 0
                    ∷ 0
                    ∷ payload_data payload))))

-- The IPv4 header with `cksum` in its checksum field.
abbrev pub ip_header : ℕ → ℕ → Bytes
ip_header ip_total_len cksum =
    0x45
    ∷ 0x00
    ∷ (be16 ip_total_len ++ (0x12 ∷ 0x34 ∷ 0 ∷ 0 ∷ 64 ∷ 6 ∷ (be16 cksum ++ (peer_ip ++ our_ip))))

-- The frame before its TCP checksum is stored.
unfoldable pub unsummed_frame : Bytes → Bytes
unsummed_frame segment =
    let total = 20 + length segment in
    our_mac
    ++ (peer_mac ++ (0x08 ∷ 0x00 ∷ (ip_header total (ip_checksum (ip_header total 0)) ++ segment)))

abbrev pub tcp_cksum_offset : ℕ
tcp_cksum_offset = 14 + 20 + 16

-- `frame[tcp_cksum_offset] ^= 0xFF`, if the checksum is to be wrong.
abbrev pub corrupted : SumKind → Bytes → Bytes
corrupted right_sum frame = frame
corrupted wrong_sum frame =
    set frame tcp_cksum_offset (bit_xor (get_or frame tcp_cksum_offset 0) 0xff)

-- A short frame is one byte short of a full TCP header.
abbrev pub frame_len_of : HeaderKind → Bytes → ℕ
frame_len_of short_frame frame = 53
frame_len_of right_header frame = length frame
frame_len_of bad_doff frame = length frame
frame_len_of doff_overrun frame = length frame

-- The connection state, which the code takes too, is not read.
unfoldable pub build_frame_v2 :
    Flags → PortMatch → Payload → SumKind → HeaderKind → Result (Bytes × ℕ)
unfolding tcp_segment unsummed_frame
build_frame_v2 flags port_match payload checksum header = do
  let frame = unsummed_frame (tcp_segment flags port_match payload header)
  tcp_cksum ← tcp_checksum_calc frame
  let summed = take tcp_cksum_offset frame ++ (le16 tcp_cksum ++ drop (tcp_cksum_offset + 2) frame)
  let sent = corrupted checksum summed
  ok (take (frame_len_of header sent) sent, frame_len_of header sent)

-- SND_NXT, RCV_NXT, the local port, the remote port, the remote address and SND_UNA of the connection
-- that the test sets up; all are 0 unless the ports match exactly.
unfoldable pub pre_seed : PortMatch → ℕ × ℕ × ℕ × ℕ × ℕ × ℕ
pre_seed exact = (
  pre_snd_nxt,
  pre_rcv_nxt,
  le16_at (be16 80),
  le16_at (be16 12345),
  le32_at peer_ip,
  pre_snd_una,
)
pre_seed listen_only = (0, 0, 0, 0, 0, 0)
pre_seed no_match = (0, 0, 0, 0, 0, 0)

-- `frame_data[:128].ljust(128, b'\x00')`
unfoldable pub padded_frame : Bytes → Bytes
padded_frame frame_data = take 128 (frame_data ++ replicate 128 0)

-- The 32 bytes before the frame.
unfoldable pub entry_header : ℕ → Expected → ConnState → PortMatch → Result Bytes
unfolding pre_seed pack_u8 pack_le16 pack_le32
entry_header frame_len e conn_state port_match = do
  let (snd_nxt, rcv_nxt, lport, rport, rip, snd_una) = pre_seed port_match
  f0 ← pack_le16 frame_len
  f1 ← pack_u8 e.ret
  f2 ← pack_u8 (state_map e.post_state)
  f3 ← pack_u8 e.reply_flags
  f4 ← pack_u8 (state_map conn_state)
  f5 ← pack_u8 (port_match_code port_match)
  f6 ← pack_le32 snd_nxt
  f7 ← pack_le32 rcv_nxt
  f8 ← pack_le16 lport
  f9 ← pack_le16 rport
  f10 ← pack_le32 rip
  f11 ← pack_le32 snd_una
  ok (
      f0
      ++ (f1
          ++ (f2
              ++ (f3
                  ++ (f4
                      ++ (f5
                          ++ (0
                              ∷ (f6
                                  ++ (f7 ++ (f8 ++ (f9 ++ (f10 ++ (f11 ++ replicate 4 0)))))))))))))

-- The 32 bytes behind it.
unfoldable pub entry_trailing : Expected → Result Bytes
unfolding pack_le16 pack_le32
entry_trailing e = do
  t0 ← pack_le32 e.reply_seq
  t1 ← pack_le32 e.reply_ack
  t2 ← pack_le32 e.post_rcv_nxt
  t3 ← pack_le16 e.post_rxlen
  t4 ← pack_le32 e.post_snd_una
  ok (t0 ++ (t1 ++ (t2 ++ (t3 ++ (0 ∷ 0 ∷ (t4 ++ replicate 12 0))))))

unfoldable pub make_entry :
    ConnState → Flags → PortMatch → Payload → SumKind → HeaderKind → Result Bytes
unfolding build_frame_v2 entry_header entry_trailing padded_frame oracle
make_entry conn_state flags port_match payload checksum header = do
  (frame_data, frame_len) ← build_frame_v2 flags port_match payload checksum header
  let e = oracle conn_state flags port_match payload checksum header
  entry_hdr ← entry_header frame_len e conn_state port_match
  guard (length entry_hdr == 32) assertion_error
  trailing ← entry_trailing e
  let entry = entry_hdr ++ (padded_frame frame_data ++ trailing)
  guard (length entry == 192) assertion_error
  ok entry
