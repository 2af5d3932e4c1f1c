-- ===== src/Frag/Positions.antt =====
-- Where the chunks of a payload stand, one behind the other.
use ws_pi.Base.{ℕ, zero, suc, ◌+◌, ◌≤◌, ◌<◌, ◌≡◌, inl, inr, refl, sym, subst, arith}
use ws_pi.Base.{List, [], ◌∷◌, true, false, length, take, drop, ltb}
use ws_pi.Base.{length-take, length-drop, Bool-cases}
use ws_pi.Base.{drop_all}
use ws_pi.Base.Bytes.{Bytes}
use ws_pi.Frag.Chunks.{Chunk, chunks}

-- The chunks from `offset` on, in order: each starts where the one before it ends; all but the last
-- have `size` bytes and more to follow, and the last, of at most `size` bytes, reaches the end.
pub data IsSplit (size total : ℕ) : ℕ → List Chunk → Type 0 where
  last :
      (offset : ℕ) (c : Chunk)
      → c.offset ≡ offset
      → c.more ≡ false
      → 0 < length c.bytes
      → length c.bytes ≤ size
      → offset + length c.bytes ≡ total
      → IsSplit size total offset (c ∷ [])
  next :
      (offset : ℕ) (c : Chunk) (cs : List Chunk)
      → c.offset ≡ offset
      → c.more ≡ true
      → length c.bytes ≡ size
      → IsSplit size total (offset + size) cs
      → IsSplit size total offset (c ∷ cs)

chunks-nil : (fuel size offset : ℕ) → chunks fuel size offset [] ≡ []
unfolding chunks
chunks-nil zero size offset = refl
chunks-nil (suc fuel) size offset = refl

pub chunks-IsSplit :
    (fuel size offset : ℕ) (rest : Bytes)
    → 0 < size
    → 0 < length rest
    → length rest < fuel
    → IsSplit size (offset + length rest) offset (chunks fuel size offset rest)
unfolding chunks
chunks-IsSplit zero size offset rest hs pos h = absurd (omega arith)
chunks-IsSplit (suc fuel) size offset [] hs pos h = absurd (omega arith)
chunks-IsSplit (suc fuel) size offset (b ∷ bs) hs pos h =
    let rest = b ∷ bs in
    let len = length-take size rest in
    let left = length-drop size rest in
    elim (Bool-cases (ltb size (length rest))) [
      | inl more ↦
          let full : length (take size rest) ≡ size = ground (arith, len, more) in
          let end : offset + size + length (drop size rest) ≡ offset + length rest =
            ground (arith, left, more) in
          let later =
            chunks-IsSplit fuel size (offset + size) (drop size rest) hs
              (ground (arith, left, more)) (omega (arith, left, hs)) in
          next offset _ _ refl more full (
            subst
              (λ n.
                IsSplit size (offset + length rest) (offset + size)
                  (chunks fuel size (offset + n) (drop size rest)))
              (sym full)
              (subst
                (λ t.
                  IsSplit size t (offset + size)
                    (chunks fuel size (offset + size) (drop size rest)))
                end later))
      | inr ends ↦
          let c : Chunk = record {
            offset = offset;
            bytes = take size rest;
            more = ltb size (length rest);
          } in
          let all : length (take size rest) ≡ length rest = ground (arith, len, ends) in
          let none_left : chunks fuel size (offset + length (take size rest)) (drop size rest)
              ≡ [] =
            rw (drop_all size rest (ground (arith, ends))) (chunks-nil fuel size _) in
          subst (λ cs. IsSplit size (offset + length rest) offset (c ∷ cs)) (sym none_left)
            (last offset c refl ends (omega (arith, all)) (ground (arith, len, ends))
              (omega (arith, all)))
    ]
