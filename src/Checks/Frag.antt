-- ===== src/Checks/Frag.antt =====
-- The fragment splitter and the reassembler of hw_test/ip_frames.py on a payload of three fragments.
use ws_pi.Base.{◌≡◌, refl, arith, List, [], ◌∷◌, ok, map, All}
use ws_pi.Base.Bytes.{Bytes}
use ws_pi.Frag.{Shared, build_fragment_frames, reassemble_fragments_python}
use ws_pi.Frag.Chunks.{Chunk, contents, IsChunk}
use ws_pi.Frag.Positions.{IsSplit}
use ws_pi.Frag.Split.{IsShared, frame_of, build_fragment_frames-eq_ok}
use ws_pi.Frag.RoundTrip.{reassemble-build_fragment_frames}
use ws_pi.Checks.Layers.{route, route-IsRoute}
use mathlib.Core.List.{Permᴰ}
use mathlib.Core.List.Permᴰ

abbrev payload : Bytes
payload = 1 ∷ 2 ∷ 3 ∷ 4 ∷ 5 ∷ 6 ∷ 7 ∷ 8 ∷ 9 ∷ 10 ∷ 11 ∷ 12 ∷ 13 ∷ 14 ∷ 15 ∷ 16 ∷ 17 ∷ 18 ∷ []

abbrev shared : Shared
shared = record { route = route; protocol = 253; ident = 77; frag_size = 8; ttl = 64 }

shared-IsShared : IsShared shared
shared-IsShared = record {
  route_valid = route-IsRoute;
  protocol_fits = omega arith;
  ident_fits = omega arith;
  ttl_fits = omega arith;
  size_pos = omega arith;
  size_aligned = refl;
}

build_fragment_frames-eq_ok_example :
    (cs : List Chunk) × (build_fragment_frames shared payload ≡ ok (map (frame_of shared) cs))
    × (contents cs ≡ payload)
    × IsSplit 8 18 0 cs
    × All (IsChunk 8 0 18) cs
build_fragment_frames-eq_ok_example =
    build_fragment_frames-eq_ok shared payload shared-IsShared (omega arith) (omega arith)

-- The frames of `payload`, and their reverse.
sent : (frames : List Bytes) × (build_fragment_frames shared payload ≡ ok frames)
sent =
    let (cs, built, whole, split, sound) =
      build_fragment_frames-eq_ok shared payload shared-IsShared (omega arith) (omega arith) in
    (map (frame_of shared) cs, built)

-- The second frame overtakes the first.
abbrev overtaken : List Bytes → List Bytes
overtaken (a ∷ b ∷ rest) = b ∷ a ∷ rest
overtaken rest = rest

overtaken-Permᴰ : (frames : List Bytes) → Permᴰ frames (overtaken frames)
overtaken-Permᴰ [] = Permᴰ.refl _
overtaken-Permᴰ (a ∷ []) = Permᴰ.refl _
overtaken-Permᴰ (a ∷ b ∷ rest) = Permᴰ.swap refl refl

reassemble-build_fragment_frames_example :
    reassemble_fragments_python (overtaken sent.0) ≡ ok payload
reassemble-build_fragment_frames_example =
    reassemble-build_fragment_frames shared payload sent.0 (overtaken sent.0) shared-IsShared
      (omega arith) (omega arith) sent.1 (overtaken-Permᴰ sent.0)
