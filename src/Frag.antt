-- ===== src/Frag.antt =====
-- hw_test/ip_frames.py: the fragment splitter and the reference reassembler.
pub mod Chunks
pub mod Positions
pub mod Split
pub mod Sorting
pub mod RoundTrip
use ws_pi.Base.{
  ℕ, zero, suc, ◌+◌, ◌<◌, List, [], ◌∷◌, ◌++◌, Bool, true, false, not, length, take, drop,
}
use ws_pi.Base.{slice, bit_and, ltb, leb, ◌==◌, if◌then◌else◌, map}
use ws_pi.Base.{Result, ok, err, value_error, out_of_fuel, guard, ◌>>=◌, ◌>>◌}
use ws_pi.Base.Bytes.{Bytes}
use ws_pi.Eth.{eth_header_len}
use ws_pi.Ip.{HeaderArgs, header_args, build_ipv4_header, parse_ipv4_header, ip_hdr_min, ip_flag_mf}
use ws_pi.Frames.{Route, wrap}

-- The arguments that all fragments share.
pub record Shared : Type 0 where
  pub route : Route
  pub protocol : ℕ
  pub ident : ℕ
  pub frag_size : ℕ
  pub ttl : ℕ

-- The arguments of `build_ipv4_header` for one fragment.
abbrev pub fragment_args : Shared → ℕ → ℕ → ℕ → HeaderArgs
fragment_args s len flags offset =
    let args = header_args s.route.src_ip s.route.dst_ip s.protocol len in
    record args { ttl = s.ttl; ident = s.ident; flags = flags; frag_off = offset }

-- The body of the loop: one fragment's frame and its chunk.
pub build_fragment : Shared → Bytes → ℕ → Result Bytes
build_fragment s payload offset = do
  let chunk = slice offset (offset + s.frag_size) payload
  let is_last = leb (length payload) (offset + length chunk)
  ip ← build_ipv4_header (fragment_args s (length chunk) (if is_last then 0 else ip_flag_mf) offset)
  wrap s.route ip chunk

-- `while offset < len(payload)`, with fuel.
pub fragment_loop : ℕ → Shared → Bytes → ℕ → Result (List Bytes)
fragment_loop zero s payload offset = err out_of_fuel
fragment_loop (suc fuel) s payload offset = elim (ltb offset (length payload)) [
  | true ↦ do
    frame ← build_fragment s payload offset
    let chunk = slice offset (offset + s.frag_size) payload
    frames ← fragment_loop fuel s payload (offset + length chunk)
    ok (frame ∷ frames)
  | false ↦ ok []
]

-- Each round takes a byte of the payload at least, so its length and one round to stop are enough.
pub build_fragment_frames : Shared → Bytes → Result (List Bytes)
build_fragment_frames s payload = do
  guard (not (s.frag_size == 0)) value_error
  guard (bit_and s.frag_size 0x7 == 0) value_error
  guard (not (length payload == 0)) value_error
  fragment_loop (suc (length payload)) s payload 0

abbrev pub Piece : Type 0
Piece = ℕ × Bytes

-- The fragment offset and the payload of one frame.
pub piece_of : Bytes → Result Piece
piece_of f = do
  ip ← parse_ipv4_header (slice eth_header_len (eth_header_len + ip_hdr_min) f)
  ok (ip.frag_off, slice (eth_header_len + ip_hdr_min) (eth_header_len + ip.total_length) f)

pub pieces_of : List Bytes → Result (List Piece)
pieces_of [] = ok []
pieces_of (f ∷ fs) = do p ← piece_of f; ps ← pieces_of fs; ok (p ∷ ps)

-- `pieces.sort(key=lambda p: p[0])`, a stable sort.
pub insert : Piece → List Piece → List Piece
insert p [] = p ∷ []
insert p (q ∷ qs) = if leb p.0 q.0 then p ∷ q ∷ qs else q ∷ insert p qs

pub sort : List Piece → List Piece
sort [] = []
sort (p ∷ ps) = insert p (sort ps)

-- `b"".join(p[1] for p in pieces)`
pub join : List Piece → Bytes
join [] = []
join (p ∷ ps) = p.1 ++ join ps

pub reassemble_fragments_python : List Bytes → Result Bytes
reassemble_fragments_python frames = do pieces ← pieces_of frames; ok (join (sort pieces))
