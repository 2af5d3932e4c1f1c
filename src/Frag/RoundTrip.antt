-- ===== src/Frag/RoundTrip.antt =====
-- Reassembly gives the payload back, in whatever order the fragments arrive.
use ws_pi.Base.{ℕ, suc, ◌+◌, ◌-◌, ◌≤◌, ◌<◌, ◌≡◌, refl, sym, ◌∙◌, ap, subst, arith, inl}
use ws_pi.Base.{List, [], ◌∷◌, ◌++◌, All, length, slice, map, take_all}
use ws_pi.Base.{ok, err}
use ws_pi.Base.Bytes.{Bytes}
use ws_pi.Checksum.{ip_checksum}
use ws_pi.Checksum.Verify.{ip_checksum-lt}
use ws_pi.Ip.Header.{IsValidArgs, header_of, built_header, parse_ipv4_header-header_of}
use ws_pi.Frames.Layers.{drop_eth, drop_header}
use ws_pi.Frag.{Piece, piece_of, pieces_of, sort, join, reassemble_fragments_python}
use ws_pi.Frag.{Shared, build_fragment_frames}
use ws_pi.Frag.Chunks.{Chunk, chunks, piece, contents, contents-chunks, IsChunk, chunks-IsChunk}
use ws_pi.Frag.Chunks.{chunks-Increasing}
use ws_pi.Frag.Split.{chunk_args, frame_of, IsShared, chunk_args-IsValidArgs}
use ws_pi.Frag.Split.{frames_of_chunks}
use ws_pi.Frag.Sorting.{Increasing, All-perm, Increasing-Distinct, sort-perm}
use ws_pi.Frag.Sorting.{sort_of_Increasing}
use mathlib.Core.List.{Permᴰ}
use mathlib.Core.List.Permᴰ

-- The piece of a chunk's frame is the chunk.
piece_of-frame_of :
    (s : Shared) (c : Chunk) (size offset end : ℕ)
    → IsShared s
    → IsChunk size offset end c
    → end ≤ 0xffff - 20
    → piece_of (frame_of s c) ≡ ok (piece c)
unfolding piece_of piece
piece_of-frame_of s c size offset end v k h =
    let x = chunk_args s c in
    let w : IsValidArgs x = chunk_args-IsValidArgs s c v k.aligned (omega arith) in
    let n : 14 + (length c.bytes + 20) - 34 ≡ length c.bytes = omega arith in
    let body : slice 34 (14 + (length c.bytes + 20)) (frame_of s c) ≡ c.bytes =
      rw (drop_header s.route x (ip_checksum (header_of x 0)) c.bytes v.route_valid, n)
        (take_all (length c.bytes) c.bytes (omega arith)) in
    let fits : ip_checksum (header_of x 0) ≤ 0xffff =
      ground (arith, ip_checksum-lt (header_of x 0)) in
    rw (
      drop_eth s.route (built_header x ++ c.bytes) v.route_valid,
      parse_ipv4_header-header_of x w (ip_checksum (header_of x 0)) [] fits,
      body,
    )

-- The piece of a frame that parses.
piece_or : Bytes → Piece
piece_or f = elim (piece_of f) [ ok p ↦ p | err e ↦ (0, []) ]

abbrev Parses : Bytes → Type 0
Parses f = piece_of f ≡ ok (piece_or f)

pieces_of-eq_ok : (fs : List Bytes) → All Parses fs → pieces_of fs ≡ ok (map piece_or fs)
unfolding pieces_of
pieces_of-eq_ok [] h = refl
pieces_of-eq_ok (f ∷ fs) h = rw (h.0, pieces_of-eq_ok fs h.1)

join-map : (cs : List Chunk) → join (map piece cs) ≡ contents cs
unfolding join contents piece
join-map [] = refl
join-map (c ∷ cs) = rw (join-map cs)

module _ (s : Shared) (size end : ℕ) (v : IsShared s) (h : end ≤ 0xffff - 20) where
  piece_or-frame_of : (c : Chunk) → IsChunk size 0 end c → piece_or (frame_of s c) ≡ piece c
  unfolding piece_or
  piece_or-frame_of c k = rw (piece_of-frame_of s c size 0 end v k h, piece_or)

  frames_parse : (cs : List Chunk) → All (IsChunk size 0 end) cs → All Parses (map (frame_of s) cs)
  frames_parse [] a = tt
  frames_parse (c ∷ cs) a =
      (rw (piece_or-frame_of c a.0) (piece_of-frame_of s c size 0 end v a.0 h), frames_parse cs a.1)

  map-piece_or :
      (cs : List Chunk)
      → All (IsChunk size 0 end) cs
      → map piece_or (map (frame_of s) cs) ≡ map piece cs
  map-piece_or [] a = refl
  map-piece_or (c ∷ cs) a = rw (piece_or-frame_of c a.0, map-piece_or cs a.1)

  reassemble_chunks :
      (cs : List Chunk) (received : List Bytes)
      → All (IsChunk size 0 end) cs
      → Increasing (map piece cs)
      → Permᴰ (map (frame_of s) cs) received
      → reassemble_fragments_python received ≡ ok (contents cs)
  unfolding reassemble_fragments_python
  reassemble_chunks cs received a up p =
      let moved : Permᴰ (map piece cs) (map piece_or received) =
        subst (λ ps. Permᴰ ps (map piece_or received)) (map-piece_or cs a) (Permᴰ.map piece_or p) in
      let sorted : sort (map piece_or received) ≡ map piece cs =
        sym (sort-perm moved (Increasing-Distinct (map piece cs) up))
        ∙ sort_of_Increasing (map piece cs) up in
      rw (pieces_of-eq_ok received (All-perm Parses p (frames_parse cs a)), sorted, join-map cs)

-- For valid shared fields, a positive fragment size that is a multiple of 8 and a payload of 1 to 65515
-- bytes, `reassemble_fragments_python` gives the payload back from the frames that
-- `build_fragment_frames` returns, in any order of arrival.
pub reassemble-build_fragment_frames :
    (s : Shared) (payload : Bytes) (frames received : List Bytes)
    → IsShared s
    → 0 < length payload
    → length payload ≤ 0xffff - 20
    → build_fragment_frames s payload ≡ ok frames
    → Permᴰ frames received
    → reassemble_fragments_python received ≡ ok payload
reassemble-build_fragment_frames s payload frames received v h fits e p =
    let cs = chunks (suc (length payload)) s.frag_size 0 payload in
    let same : frames ≡ map (frame_of s) cs = cc (e, frames_of_chunks s payload v h fits) in
    reassemble_chunks s s.frag_size (length payload) v fits cs received
      (subst (λ t. All (IsChunk s.frag_size 0 t) cs) (omega arith)
        (chunks-IsChunk _ s.frag_size 0 payload v.size_pos v.size_aligned (inl refl) (omega arith)))
      (chunks-Increasing _ s.frag_size 0 payload v.size_pos v.size_aligned (inl refl) (omega arith))
      (subst (λ fs. Permᴰ fs received) same p)
    ∙ ap ok (contents-chunks _ s.frag_size 0 payload v.size_pos (omega arith))
