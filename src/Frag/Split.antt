-- ===== src/Frag/Split.antt =====
-- What `build_fragment_frames` makes: one frame for each chunk of the payload.
use ws_pi.Base.{ℕ, zero, suc, ◌+◌, ◌-◌, ◌%◌, ◌≤◌, ◌<◌, ◌≡◌, ◌⊎◌, inl, inr, refl, ap, subst, arith}
use ws_pi.Base.{List, [], ◌∷◌, ◌++◌, true, false, length, take, drop, slice, map, min, ltb, leb}
use ws_pi.Base.{length-take, length-drop, if◌then◌else◌, ok, All}
use ws_pi.Base.{not, ◌==◌, bit_and}
use ws_pi.Base.Bytes.{Bytes}
use ws_pi.Ip.{HeaderArgs, ip_flag_mf}
use ws_pi.Ip.Header.{IsValidArgs, built_header, build_ipv4_header-none}
use ws_pi.Frames.Layers.{IsRoute, eth_of, wrap-eq_ok}
use ws_pi.Frag.Chunks.{
  Chunk, chunks, next_rest, next_aligned, contents, contents-chunks, IsChunk, chunks-IsChunk,
}
use ws_pi.Frag.Positions.{IsSplit, chunks-IsSplit}
use ws_pi.Frag.{build_fragment_frames}
use ws_pi.Base.Bits.{bit_and_mask}
use ws_pi.Frag.{Shared, fragment_args, build_fragment, fragment_loop}

abbrev pub chunk_args : Shared → Chunk → HeaderArgs
chunk_args s c = fragment_args s (length c.bytes) (if c.more then ip_flag_mf else 0) c.offset

abbrev pub frame_of : Shared → Chunk → Bytes
frame_of s c = eth_of s.route ++ (built_header (chunk_args s c) ++ c.bytes)

pub record IsShared (s : Shared) : Type 0 where
  pub route_valid : IsRoute s.route
  pub protocol_fits : s.protocol ≤ 0xff
  pub ident_fits : s.ident ≤ 0xffff
  pub ttl_fits : s.ttl ≤ 0xff
  pub size_pos : 0 < s.frag_size
  pub size_aligned : s.frag_size % 8 ≡ 0

pub chunk_args-IsValidArgs :
    (s : Shared) (c : Chunk)
    → IsShared s
    → c.offset % 8 ≡ 0
    → c.offset + length c.bytes ≤ 0xffff - 20
    → IsValidArgs (chunk_args s c)
chunk_args-IsValidArgs s c v ha hl = ground arith

-- The body of the loop at an offset where `rest` is what is left of the payload.
module _ (s : Shared) (payload : Bytes) (offset : ℕ) (b : ℕ) (bs : Bytes) (v : IsShared s)
    (e : drop offset payload ≡ b ∷ bs) (fits : length payload ≤ 0xffff - 20) where
  total : length payload ≡ offset + suc (length bs)
  total = omega (arith, length-drop offset payload, ap length e)

  abbrev chunk : Chunk
  chunk = record {
    offset = offset;
    bytes = take s.frag_size (b ∷ bs);
    more = ltb s.frag_size (length (b ∷ bs));
  }

  sliced : slice offset (offset + s.frag_size) payload ≡ chunk.bytes
  sliced = let d : offset + s.frag_size - offset ≡ s.frag_size = omega arith in rw (d, e)

  length-chunk : length chunk.bytes ≡ min s.frag_size (suc (length bs))
  length-chunk = length-take s.frag_size (b ∷ bs)

  same_flags :
      (if leb (length payload) (offset + length chunk.bytes) then 0 else ip_flag_mf)
      ≡ (if chunk.more then ip_flag_mf else 0)
  same_flags = ground (arith, total, length-chunk)

  build_fragment-eq_ok : offset % 8 ≡ 0 → build_fragment s payload offset ≡ ok (frame_of s chunk)
  unfolding build_fragment
  build_fragment-eq_ok ha =
      let w : IsValidArgs (chunk_args s chunk) =
        chunk_args-IsValidArgs s chunk v ha (omega (arith, total, length-chunk)) in
      rw (sliced, same_flags, build_ipv4_header-none (chunk_args s chunk) w refl)
        (wrap-eq_ok s.route _ chunk.bytes v.route_valid)

-- With enough fuel the loop ends, and returns the frames of the chunks.
pub fragment_loop_lem :
    (fuel : ℕ) (s : Shared) (payload : Bytes) (offset : ℕ) (rest : Bytes)
    → IsShared s
    → length payload ≤ 0xffff - 20
    → drop offset payload ≡ rest
    → (offset % 8 ≡ 0) ⊎ (rest ≡ [])
    → length rest < fuel
    → fragment_loop fuel s payload offset
      ≡ ok (map (frame_of s) (chunks fuel s.frag_size offset rest))
unfolding fragment_loop chunks
fragment_loop_lem zero s payload offset rest v fits e a h = absurd (omega arith)
fragment_loop_lem (suc fuel) s payload offset [] v fits e a h =
    let done : ltb offset (length payload) ≡ false =
      ground (arith, length-drop offset payload, ap length e) in
    rw (done, fragment_loop)
fragment_loop_lem (suc fuel) s payload offset (b ∷ bs) v fits e (inr none_left) h = cc
fragment_loop_lem (suc fuel) s payload offset (b ∷ bs) v fits e (inl aligned) h =
    let size = s.frag_size in
    let rest = drop size (b ∷ bs) in
    let offset' = offset + length (take size (b ∷ bs)) in
    let more : ltb offset (length payload) ≡ true =
      ground (arith, total s payload offset b bs v e fits) in
    let ih : fragment_loop fuel s payload offset'
        ≡ ok (map (frame_of s) (chunks fuel size offset' rest)) =
      fragment_loop_lem fuel s payload offset' rest v fits
        (next_rest size offset payload (b ∷ bs) e)
        (next_aligned size offset (b ∷ bs) aligned v.size_aligned)
        (omega (arith, length-drop size (b ∷ bs), v.size_pos)) in
    rw (more, fragment_loop)
      (rw (
        build_fragment-eq_ok s payload offset b bs v e fits aligned,
        sliced s payload offset b bs v e fits,
        ih,
      ))

low_three : (a : ℕ) → bit_and a 0x7 ≡ a % 8
low_three a = bit_and_mask 3 a

pub frames_of_chunks :
    (s : Shared) (payload : Bytes)
    → IsShared s
    → 0 < length payload
    → length payload ≤ 0xffff - 20
    → build_fragment_frames s payload
      ≡ ok (map (frame_of s) (chunks (suc (length payload)) s.frag_size 0 payload))
unfolding build_fragment_frames
frames_of_chunks s payload v h fits =
    let sized : not (s.frag_size == 0) ≡ true = ground (arith, v.size_pos) in
    let some_bytes : not (length payload == 0) ≡ true = ground arith in
    rw (sized, low_three, v.size_aligned, some_bytes)
      (fragment_loop_lem _ s payload 0 payload v fits refl (inl refl) (omega arith))

-- For valid shared fields, a positive fragment size that is a multiple of 8 and a payload of 1 to 65515
-- bytes, `build_fragment_frames` returns the frames of chunks that make up the payload in order: the
-- first starts at 0 and each other where the one before it ends, at multiples of 8; all but the last
-- carry the More Fragments flag and `frag_size` bytes, and the last carries at most that many, without
-- the flag, and reaches the end of the payload.
pub build_fragment_frames-eq_ok :
    (s : Shared) (payload : Bytes)
    → IsShared s
    → 0 < length payload
    → length payload ≤ 0xffff - 20
    → (cs : List Chunk) × (build_fragment_frames s payload ≡ ok (map (frame_of s) cs))
      × (contents cs ≡ payload)
      × IsSplit s.frag_size (length payload) 0 cs
      × All (IsChunk s.frag_size 0 (length payload)) cs
build_fragment_frames-eq_ok s payload v h fits =
    let cs = chunks (suc (length payload)) s.frag_size 0 payload in
    (
      cs,
      frames_of_chunks s payload v h fits,
      contents-chunks _ s.frag_size 0 payload v.size_pos (omega arith),
      subst (λ t. IsSplit s.frag_size t 0 cs) (omega arith)
          (chunks-IsSplit _ s.frag_size 0 payload v.size_pos h (omega arith)),
      subst (λ t. All (IsChunk s.frag_size 0 t) cs) (omega arith)
          (chunks-IsChunk _ s.frag_size 0 payload v.size_pos v.size_aligned (inl refl)
            (omega arith)),
    )
