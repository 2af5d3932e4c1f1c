-- ===== src/IntelHex/Kernel.antt =====
-- `kernel_to_hex_records` places every byte of the kernel at its address.
use ws_pi.Base.{
  ℕ, zero, suc, ◌+◌, ◌-◌, ◌*◌, ◌/◌, ◌%◌, ◌^◌, ◌≤◌, ◌<◌, ◌≡◌, refl, sym, ◌∙◌, ap, arith,
}
use ws_pi.Base.{
  List, [], ◌∷◌, ◌++◌, All, true, false, Bool, length, take, drop, ltb, leb, not, ◌==◌,
}
use ws_pi.Base.{Result, ok, ◌⊎◌, inl, inr, Bool-cases, subst}
use ws_pi.Base.{length-take, length-drop, take-append-drop, All-take, All-drop, drop_all}
use ws_pi.Base.Bytes.{Bytes, IsByte}
use native.Mathlib.Nat.{le_dest}
use ws_pi.IntelHex.{Text, record_loop}
use ws_pi.IntelHex.{kernel_to_hex_records}
use ws_pi.IntelHex.Loader.{placed, placed-append, load, load_data, load_extended, load_eof}

-- `records` are what `r` returns, and before any records that load nothing they place `bytes`.
abbrev Places : Result (List Text) → ℕ → ℕ → Bytes → Type 0
Places r upper address bytes =
    (records : List Text) × (r ≡ ok records)
    × ((last : List Text)
        → ((u : ℕ) → load u last ≡ ok [])
        → load upper (records ++ last) ≡ ok (placed address bytes))

placed_split :
    (size address : ℕ) (bytes : Bytes)
    → placed address (take size bytes)
        ++ placed (address + length (take size bytes)) (drop size bytes)
      ≡ placed address bytes
placed_split size address bytes =
    sym (placed-append address (take size bytes) (drop size bytes))
    ∙ ap (placed address) (take-append-drop size bytes)

module _ (size fuel upper b : ℕ) (bs : Bytes) (small : size ≤ 0xff)
    (bytes : All IsByte (b ∷ bs)) where
  abbrev chunk : Bytes
  chunk = take size (b ∷ bs)

  abbrev rest : Bytes
  rest = drop size (b ∷ bs)

  short : length chunk ≤ 0xff
  short = omega (arith, length-take size (b ∷ bs))

  -- A round whose offset is within the segment.
  inner_round :
      (offset : ℕ)
      → offset < 2 ^ 16
      → Places
          (record_loop fuel size rest upper (offset + length chunk))
          upper
          (upper * 2 ^ 16 + (offset + length chunk))
          rest
      → Places
          (record_loop (suc fuel) size (b ∷ bs) upper offset)
          upper
          (upper * 2 ^ 16 + offset)
          (b ∷ bs)
  unfolding record_loop
  inner_round offset room (records, e, loads) =
      let (t, made, step) =
        load_data upper offset chunk room short (All-take IsByte size (b ∷ bs) bytes) in
      let inside : ltb 0xffff offset ≡ false = ground arith in
      let next : upper * 2 ^ 16 + (offset + length chunk) ≡ upper * 2 ^ 16 + offset + length chunk =
        omega arith in
      (
        t ∷ records,
        rw (inside, record_loop) (rw (made, e)),
        λ last ends.
            step (records ++ last)
            ∙ rw (loads last ends, next)
                (ap ok (placed_split size (upper * 2 ^ 16 + offset) (b ∷ bs))),
      )

  -- A round at the end of a segment, which opens the next one.
  turning_round :
      upper + 1 < 2 ^ 16
      → Places
          (record_loop fuel size rest (upper + 1) (length chunk))
          (upper + 1)
          ((upper + 1) * 2 ^ 16 + length chunk)
          rest
      → Places
          (record_loop (suc fuel) size (b ∷ bs) upper (2 ^ 16))
          upper
          (upper * 2 ^ 16 + 2 ^ 16)
          (b ∷ bs)
  unfolding record_loop
  turning_round room (records, e, loads) =
      let (x, extended, jump) = load_extended upper (upper + 1) room in
      let (t, made, step) =
        load_data (upper + 1) 0 chunk (omega arith) short (All-take IsByte size (b ∷ bs) bytes) in
      let start : (upper + 1) * 2 ^ 16 + 0 ≡ upper * 2 ^ 16 + 2 ^ 16 = omega arith in
      let next : (upper + 1) * 2 ^ 16 + length chunk ≡ upper * 2 ^ 16 + 2 ^ 16 + length chunk =
        omega arith in
      (
        x ∷ t ∷ records,
        rw (extended, record_loop) (rw (made, e)),
        λ last ends.
            jump (t ∷ (records ++ last))
            ∙ step (records ++ last)
            ∙ rw (loads last ends, start, next)
                (ap ok (placed_split size (upper * 2 ^ 16 + 2 ^ 16) (b ∷ bs))),
      )

next_at :
    (size left offset : ℕ) (bytes : Bytes)
    → offset + suc left * size ≡ 2 ^ 16
    → (offset + length (take size bytes) + left * size ≡ 2 ^ 16) ⊎ (drop size bytes ≡ [])
next_at size left offset bytes at = elim (Bool-cases (ltb (length bytes) size)) [
  | inl lt ↦ inr (drop_all size bytes (ground arith))
  | inr ge ↦ inl (grind (arith, length-take size bytes))
]

next_at' :
    (size left : ℕ) (bytes : Bytes)
    → suc left * size ≡ 2 ^ 16
    → (length (take size bytes) + left * size ≡ 2 ^ 16) ⊎ (drop size bytes ≡ [])
next_at' size left bytes full =
    let e : 0 + length (take size bytes) ≡ length (take size bytes) = omega arith in
    rw e at (next_at size left 0 bytes (omega arith))

-- `left` whole chunks fit between the offset and the end of its 64 KiB segment, and a segment holds
-- one chunk and `others`.
loop-Places :
    (fuel size others left upper offset : ℕ) (bytes : Bytes)
    → 0 < size
    → size ≤ 0xff
    → suc others * size ≡ 2 ^ 16
    → (offset + left * size ≡ 2 ^ 16) ⊎ (bytes ≡ [])
    → All IsByte bytes
    → length bytes < fuel
    → upper * 2 ^ 16 + offset + length bytes ≤ 2 ^ 32
    → Places (record_loop fuel size bytes upper offset) upper (upper * 2 ^ 16 + offset) bytes
loop-Places zero size others left upper offset bytes pos small full at all h room =
    absurd (omega arith)
loop-Places (suc fuel) size others left upper offset [] pos small full at all h room =
    unfold record_loop placed in ([], refl, λ last ends. ends upper)
loop-Places (suc fuel) size others left upper offset (b ∷ bs) pos small full (inr none_left) all h
      room =
    cc
loop-Places (suc fuel) size others (suc left) upper offset (b ∷ bs) pos small full (inl at) all h
      room =
    inner_round size fuel upper b bs small all offset (grind arith) (
      loop-Places fuel size others left upper (offset + length (take size (b ∷ bs)))
        (drop size (b ∷ bs)) pos small full (next_at size left offset (b ∷ bs) at)
        (All-drop IsByte size (b ∷ bs) all) (omega (arith, length-drop size (b ∷ bs)))
        (omega (arith, length-take size (b ∷ bs), length-drop size (b ∷ bs))))
loop-Places (suc fuel) size others zero upper offset (b ∷ bs) pos small full (inl at) all h room =
    let end : 2 ^ 16 ≡ offset = omega arith in
    subst
      (λ o.
        Places (record_loop (suc fuel) size (b ∷ bs) upper o) upper (upper * 2 ^ 16 + o) (b ∷ bs))
      end
      (turning_round size fuel upper b bs small all (omega arith) (
        loop-Places fuel size others others (upper + 1) (length (take size (b ∷ bs)))
          (drop size (b ∷ bs)) pos small full (next_at' size others (b ∷ bs) full)
          (All-drop IsByte size (b ∷ bs) all) (omega (arith, length-drop size (b ∷ bs)))
          (omega (arith, length-take size (b ∷ bs), length-drop size (b ∷ bs)))))

positive : (size others : ℕ) → suc others * size ≡ 2 ^ 16 → 0 < size
positive zero others h = absurd (omega arith)
positive (suc size) others h = omega arith

mul_mono : (a b c : ℕ) → a ≤ b → a * c ≤ b * c
mul_mono a b c h = grind arith

blocks_below :
    (size per_segment blocks : ℕ)
    → 0 < size
    → per_segment * size ≡ 2 ^ 16
    → blocks * size < 2 ^ 16
    → blocks ≤ per_segment
blocks_below size per_segment blocks pos full h = elim (Bool-cases (leb blocks per_segment)) [
  | inl le ↦ ground arith
  | inr gt ↦ absurd (omega (arith, mul_mono per_segment blocks size (ground arith)))
]

blocks_left :
    (size per_segment blocks : ℕ)
    → 0 < size
    → per_segment * size ≡ 2 ^ 16
    → blocks * size < 2 ^ 16
    → blocks * size + (per_segment - blocks) * size ≡ 2 ^ 16
blocks_left size per_segment blocks pos full h =
    let (k, e) = le_dest (blocks_below size per_segment blocks pos full h) in
    let k' : per_segment - blocks ≡ k = omega arith in
    rw k' (omega (arith, ap (λ (t : ℕ). t * size) e))

-- Where the chunk size is at most 255 and divides 64 KiB, the base address below 4 GiB lies a whole
-- number of chunks behind a multiple of 64 KiB and the kernel ends within 4 GiB,
-- `kernel_to_hex_records` returns records, with or without the end record, from which a loader places
-- exactly the kernel's bytes, in order from the base address.
pub load-kernel_to_hex_records :
    (kernel : Bytes) (base size per_segment blocks : ℕ) (include_eof : Bool)
    → All IsByte kernel
    → size ≤ 0xff
    → per_segment * size ≡ 2 ^ 16
    → base % 2 ^ 16 ≡ blocks * size
    → base < 2 ^ 32
    → base + length kernel ≤ 2 ^ 32
    → (records : List Text) × (kernel_to_hex_records kernel base size include_eof ≡ ok records)
      × (load 0 records ≡ ok (placed base kernel))
unfolding kernel_to_hex_records
load-kernel_to_hex_records kernel base size zero blocks include_eof all small full aligned low
      room =
    absurd (omega arith)
load-kernel_to_hex_records kernel base size (suc others) blocks include_eof all small full aligned
      low room =
    let pos : 0 < size = positive size others full in
    let upper = base / 2 ^ 16 % 2 ^ 16 in
    let left = suc others - blocks in
    let at : base % 2 ^ 16 + left * size ≡ 2 ^ 16 =
      omega (arith, blocks_left size (suc others) blocks pos full (omega arith)) in
    let (first, extended, jump) = load_extended 0 upper (omega arith) in
    let (last, ended, nothing) = load_eof include_eof in
    let (records, looped, places) =
      loop-Places (suc (length kernel)) size others left upper (base % 2 ^ 16) kernel pos small full
        (inl at) all (omega arith) (omega arith) in
    let whole : upper * 2 ^ 16 + base % 2 ^ 16 ≡ base = omega arith in
    let test : not (size == 0) ≡ true = ground arith in
    (
      first ∷ (records ++ last),
      rw (extended, test, looped, ended),
      jump (records ++ last) ∙ places last nothing ∙ ap (λ a. ok (placed a kernel)) whole,
    )
