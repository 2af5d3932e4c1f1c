-- ===== src/Frag/Chunks.antt =====
-- The chunks of a payload, as an independent description of the splitter's output.
use ws_pi.Base.{ℕ, zero, suc, ◌+◌, ◌%◌, ◌≤◌, ◌<◌, ◌≡◌, ◌⊎◌, inl, inr, refl, sym, ◌∙◌, subst, arith}
use ws_pi.Base.{List, [], ◌∷◌, ◌++◌, Bool, true, false, length, take, drop, min, ltb, All}
use ws_pi.Base.{length-take, length-drop, Bool-cases, map, take-append-drop, drop-drop}
use ws_pi.Base.{drop-length-take, drop_all}
use ws_pi.Base.Bytes.{Bytes}
use ws_pi.Frag.{Piece}
use ws_pi.Frag.Sorting.{Increasing}

-- A chunk of the payload: its offset, its bytes, and whether more follow.
pub record Chunk : Type 0 where
  pub offset : ℕ
  pub bytes : Bytes
  pub more : Bool

unfoldable pub chunks : ℕ → ℕ → ℕ → Bytes → List Chunk
chunks zero size offset rest = []
chunks (suc fuel) size offset [] = []
chunks (suc fuel) size offset (b ∷ bs) =
    let rest = b ∷ bs in
    record { offset = offset; bytes = take size rest; more = ltb size (length rest) }
    ∷ chunks fuel size (offset + length (take size rest)) (drop size rest)

pub next_rest :
    (size offset : ℕ) (payload rest : Bytes)
    → drop offset payload ≡ rest
    → drop (offset + length (take size rest)) payload ≡ drop size rest
next_rest size offset payload rest e =
    sym (drop-drop offset (length (take size rest)) payload) ∙ rw e (drop-length-take size rest)

pub next_aligned :
    (size offset : ℕ) (rest : Bytes)
    → offset % 8 ≡ 0
    → size % 8 ≡ 0
    → ((offset + length (take size rest)) % 8 ≡ 0) ⊎ (drop size rest ≡ [])
next_aligned size offset rest ho hs = elim (Bool-cases (ltb size (length rest))) [
  | inl lt ↦ inl (ground (arith, length-take size rest))
  | inr ge ↦ inr (drop_all size rest (ground arith))
]

-- The chunks in order make up the payload.
unfoldable pub contents : List Chunk → Bytes
contents [] = []
contents (c ∷ cs) = c.bytes ++ contents cs

pub contents-chunks :
    (fuel size offset : ℕ) (rest : Bytes)
    → 0 < size
    → length rest < fuel
    → contents (chunks fuel size offset rest) ≡ rest
unfolding contents chunks
contents-chunks zero size offset rest hs h = absurd (omega arith)
contents-chunks (suc fuel) size offset [] hs h = refl
contents-chunks (suc fuel) size offset (b ∷ bs) hs h =
    rw
      (contents-chunks fuel size (offset + length (take size (b ∷ bs))) (drop size (b ∷ bs)) hs
        (omega (arith, length-drop size (b ∷ bs))))
      (take-append-drop size (b ∷ bs))

-- Each chunk starts at a multiple of 8 at or after `offset` and ends within the payload; all but the
-- last are `size` bytes long and have more to follow.
pub record IsChunk (size offset total : ℕ) (c : Chunk) : Type 0 where
  pub starts : offset ≤ c.offset
  pub aligned : c.offset % 8 ≡ 0
  pub ends : c.offset + length c.bytes ≤ total
  pub long : 0 < length c.bytes
  pub full :
      (c.more ≡ true) × (length c.bytes ≡ size) × (c.offset + size < total)
      ⊎ (c.more ≡ false) × (c.offset + length c.bytes ≡ total)

chunk-later :
    (size offset offset' end : ℕ)
    → offset ≤ offset'
    → (cs : List Chunk) → All (IsChunk size offset' end) cs
    → All (IsChunk size offset end) cs
chunk-later size offset offset' end h [] a = tt
chunk-later size offset offset' end h (c ∷ cs) a =
    let k = a.0 in
    (
      record {
        starts = omega arith;
        aligned = k.aligned;
        ends = k.ends;
        long = k.long;
        full = k.full;
      },
      chunk-later size offset offset' end h cs a.1,
    )

pub chunks-IsChunk :
    (fuel size offset : ℕ) (rest : Bytes)
    → 0 < size
    → size % 8 ≡ 0
    → (offset % 8 ≡ 0) ⊎ (rest ≡ [])
    → length rest < fuel
    → All (IsChunk size offset (offset + length rest)) (chunks fuel size offset rest)
unfolding chunks
chunks-IsChunk zero size offset rest hs ha a h = absurd (omega arith)
chunks-IsChunk (suc fuel) size offset [] hs ha a h = tt
chunks-IsChunk (suc fuel) size offset (b ∷ bs) hs ha (inr none_left) h = cc
chunks-IsChunk (suc fuel) size offset (b ∷ bs) hs ha (inl aligned) h =
    let len : length (take size (b ∷ bs)) ≡ min size (suc (length bs)) =
      length-take size (b ∷ bs) in
    let offset' = offset + length (take size (b ∷ bs)) in
    let rest = drop size (b ∷ bs) in
    let end : offset' + length rest ≡ offset + suc (length bs) =
      omega (arith, len, length-drop size (b ∷ bs)) in
    let later : All (IsChunk size offset' (offset' + length rest)) (chunks fuel size offset' rest) =
      chunks-IsChunk fuel size offset' rest hs ha (next_aligned size offset (b ∷ bs) aligned ha)
        (omega (arith, length-drop size (b ∷ bs))) in
    (
      record {
        starts = omega arith;
        aligned = aligned;
        ends = omega (arith, len);
        long = omega (arith, len);
        full = ground (arith, len);
      },
      chunk-later size offset offset' (offset + suc (length bs)) (omega arith)
          (chunks fuel size offset' rest)
          (subst (λ t. All (IsChunk size offset' t) (chunks fuel size offset' rest)) end later),
    )

unfoldable pub piece : Chunk → Piece
piece c = (c.offset, c.bytes)

later_offsets :
    (size low offset end : ℕ) (cs : List Chunk)
    → low < offset
    → All (IsChunk size offset end) cs
    → All (λ q. low < q.0) (map piece cs)
unfolding piece
later_offsets size low offset end [] h a = tt
later_offsets size low offset end (c ∷ cs) h a =
    let k = a.0 in (omega arith, later_offsets size low offset end cs h a.1)

pub chunks-Increasing :
    (fuel size offset : ℕ) (rest : Bytes)
    → 0 < size
    → size % 8 ≡ 0
    → (offset % 8 ≡ 0) ⊎ (rest ≡ [])
    → length rest < fuel
    → Increasing (map piece (chunks fuel size offset rest))
unfolding chunks piece
chunks-Increasing zero size offset rest hs ha a h = absurd (omega arith)
chunks-Increasing (suc fuel) size offset [] hs ha a h = tt
chunks-Increasing (suc fuel) size offset (b ∷ bs) hs ha (inr none_left) h = cc
chunks-Increasing (suc fuel) size offset (b ∷ bs) hs ha (inl aligned) h =
    let offset' = offset + length (take size (b ∷ bs)) in
    let rest = drop size (b ∷ bs) in
    let a' : (offset' % 8 ≡ 0) ⊎ (rest ≡ []) = next_aligned size offset (b ∷ bs) aligned ha in
    let shorter : length rest < fuel = omega (arith, length-drop size (b ∷ bs)) in
    (
      later_offsets size offset offset' (offset' + length rest) (chunks fuel size offset' rest)
          (omega (arith, length-take size (b ∷ bs)))
          (chunks-IsChunk fuel size offset' rest hs ha a' shorter),
      chunks-Increasing fuel size offset' rest hs ha a' shorter,
    )
