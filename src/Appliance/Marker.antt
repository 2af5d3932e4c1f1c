-- ===== src/Appliance/Marker.antt =====
-- Where the slab is found in the kernel image, and the image that is written.
use ws_pi.Base.{
  ℕ, zero, suc, ◌+◌, ◌-◌, ◌≤◌, ◌<◌, ◌≡◌, ◌⊎◌, inl, inr, refl, sym, ◌∙◌, ap, arith, Option, none,
  some, List, [], ◌∷◌, ◌++◌,
}
use ws_pi.Base.{
  Bool, true, false, length, length-take, take, drop, leb, Bool-cases, drop-drop, drop-nil,
}
use ws_pi.Base.{ok, value_error, guard, ◌>>◌, leb→le}
use ws_pi.Base.Bytes.{Bytes}
use ws_pi.Appliance.{
  Layout, PageRoute, content_off, slab_size, magic_none, starts_with, find, is_none, check_slab,
  find_slab_offset, verify_kernel_ksize, package_image,
}
use ws_pi.Appliance.Entries.{take-append_add}
use ws_pi.Appliance.Slab.{contents}
use ws_pi.Appliance.Built.{Fits}
use ws_pi.Appliance.Served.{Holds, build_slab-Holds}

module _ (pattern : Bytes) where
  find-some :
      (at k : ℕ) (bytes : Bytes)
      → find pattern at bytes ≡ some k
      → (at ≤ k) × (starts_with pattern (drop (k - at) bytes) ≡ true)
  unfolding find
  find-some at k [] h = elim (Bool-cases (starts_with pattern [])) [
    | inl here ↦
        let same : at ≡ k = ground (arith, h, here) in
        (omega arith, rw (drop-nil {A = ℕ} (k - at)) here)
    | inr absent ↦ absurd (ground (arith, h, absent))
  ]
  find-some at k (b ∷ bytes) h = elim (Bool-cases (starts_with pattern (b ∷ bytes))) [
    | inl here ↦
        let same : at ≡ k = ground (arith, h, here) in
        let nothing : k - at ≡ 0 = omega arith in
        (omega arith, ap (λ n. starts_with pattern (drop n (b ∷ bytes))) nothing ∙ here)
    | inr absent ↦
        let later : find pattern (suc at) bytes ≡ some k = ground (arith, h, absent) in
        let (l, found) = find-some (suc at) k bytes later in
        let one_more : k - at ≡ suc (k - suc at) = omega arith in
        (omega arith, ap (λ n. starts_with pattern (drop n (b ∷ bytes))) one_more ∙ found)
  ]

  find-before :
      (at k o : ℕ) (bytes : Bytes)
      → find pattern at bytes ≡ some k
      → at + o < k
      → starts_with pattern (drop o bytes) ≡ false
  unfolding find
  find-before at k o [] h l = elim (Bool-cases (starts_with pattern [])) [
    | inl here ↦ let same : at ≡ k = ground (arith, h, here) in absurd (omega arith)
    | inr absent ↦ absurd (ground (arith, h, absent))
  ]
  find-before at k zero (b ∷ bytes) h l = elim (Bool-cases (starts_with pattern (b ∷ bytes))) [
    | inl here ↦ let same : at ≡ k = ground (arith, h, here) in absurd (omega arith)
    | inr absent ↦ absent
  ]
  find-before at k (suc o) (b ∷ bytes) h l = elim (Bool-cases (starts_with pattern (b ∷ bytes))) [
    | inl here ↦ let same : at ≡ k = ground (arith, h, here) in absurd (omega arith)
    | inr absent ↦ find-before (suc at) k o bytes (ground (arith, h, absent)) (omega arith)
  ]

  find-nowhere :
      (at o : ℕ) (bytes : Bytes)
      → find pattern at bytes ≡ none
      → starts_with pattern (drop o bytes) ≡ false
  unfolding find
  find-nowhere at o [] h = elim (Bool-cases (starts_with pattern [])) [
    | inl here ↦ absurd (ground (arith, h, here))
    | inr absent ↦ rw (drop-nil {A = ℕ} o) absent
  ]
  find-nowhere at zero (b ∷ bytes) h = elim (Bool-cases (starts_with pattern (b ∷ bytes))) [
    | inl here ↦ absurd (ground (arith, h, here))
    | inr absent ↦ absent
  ]
  find-nowhere at (suc o) (b ∷ bytes) h = elim (Bool-cases (starts_with pattern (b ∷ bytes))) [
    | inl here ↦ absurd (ground (arith, h, here))
    | inr absent ↦ find-nowhere (suc at) o bytes (ground (arith, h, absent))
  ]

is_none-eq : (o : Option ℕ) → is_none o ≡ true → o ≡ none
is_none-eq none h = refl
is_none-eq (some at) h = cc

both_guards :
    (a b : Bool) (at off : ℕ)
    → (guard a value_error >> (guard b value_error >> ok at)) ≡ ok off
    → (a ≡ true) × (b ≡ true) × (at ≡ off)
both_guards true true at off h = (refl, refl, cc)
both_guards true false at off h = cc
both_guards false b at off h = cc

-- What the checks on the marker tell.
check_slab-some :
    (l : Layout) (image : Bytes) (found : Option ℕ) (off : ℕ)
    → check_slab l image found ≡ ok off
    → (found ≡ some off)
      × (find magic_none (off + 1) (drop (off + 1) image) ≡ none)
      × (off + slab_size l ≤ length image)
unfolding check_slab
check_slab-some l image none off h = cc
check_slab-some l image (some at) off h =
    let (alone, whole, same) =
      both_guards (is_none (find magic_none (at + 1) (drop (at + 1) image)))
        (leb (at + slab_size l) (length image)) at off h in
    let fits : at + slab_size l ≤ length image = leb→le _ _ whole in
    (
      ap some same,
      ap (λ k. find magic_none (k + 1) (drop (k + 1) image)) (sym same) ∙ is_none-eq _ alone,
      omega arith,
    )

-- If `find_slab_offset` returns a place, the marker `WSPINONE` stands there and, whatever other place
-- of the image is looked at, not there; and the whole slab lies inside of the image.
pub find_slab_offset_unique :
    (l : Layout) (image : Bytes) (off o : ℕ)
    → find_slab_offset l image ≡ ok off
    → (starts_with magic_none (drop off image) ≡ true)
      × ((o ≡ off) ⊎ (starts_with magic_none (drop o image) ≡ false))
      × (off + slab_size l ≤ length image)
unfolding find_slab_offset
find_slab_offset_unique l image off o h =
    let (here, alone, fits) = check_slab-some l image (find magic_none 0 image) off h in
    let (at_least, found) = find-some magic_none 0 off image here in
    let no_shift : off - 0 ≡ off = omega arith in
    let at_off = ap (λ k. starts_with magic_none (drop k image)) (sym no_shift) ∙ found in
    elim (trichotomy o off) [
      | inl earlier ↦ (at_off, inr (find-before magic_none 0 off o image here (omega arith)), fits)
      | inr (inl same) ↦ (at_off, inl same, fits)
      | inr (inr later) ↦
          let gap : off + 1 + (o - (off + 1)) ≡ o = omega arith in
          let not_there =
            find-nowhere magic_none (off + 1) (o - (off + 1)) (drop (off + 1) image) alone in
          let moved : drop (o - (off + 1)) (drop (off + 1) image) ≡ drop o image =
            drop-drop (off + 1) (o - (off + 1)) image ∙ ap (λ k. drop k image) gap in
          let nothing : starts_with magic_none (drop o image) ≡ false =
            ap (starts_with magic_none) (sym moved) ∙ not_there in
          (at_off, inr nothing, fits)
    ]
  where
    trichotomy : (a b : ℕ) → (a < b) ⊎ ((a ≡ b) ⊎ (b < a))
    trichotomy a b = ground arith

take-append_short : (k : ℕ) (xs ys : Bytes) → k ≤ length xs → take k (xs ++ ys) ≡ take k xs
take-append_short zero xs ys h = refl
take-append_short (suc k) [] ys h = absurd (omega arith)
take-append_short (suc k) (x ∷ xs) ys h = ap (λ t. x ∷ t) (take-append_short k xs ys (omega arith))

-- The cut behind `k` bytes of the slab.
cut_lem :
    (image slab behind : Bytes) (off k at : ℕ)
    → off ≤ length image
    → k ≤ length slab
    → at ≡ off + k
    → take at (take off image ++ (slab ++ behind)) ≡ take off image ++ take k slab
cut_lem image slab behind off k at h l e =
    let front : at ≡ length (take off image) + k = omega (arith, length-take off image) in
    ap (λ n. take n (take off image ++ (slab ++ behind))) front
    ∙ take-append_add (take off image) (slab ++ behind) k
    ∙ ap (λ t. take off image ++ t) (take-append_short k slab behind l)

find_slab_offset-inside :
    (l : Layout) (image : Bytes) (off : ℕ)
    → find_slab_offset l image ≡ ok off
    → off + slab_size l ≤ length image
unfolding find_slab_offset
find_slab_offset-inside l image off h =
    let (here, alone, fits) = check_slab-some l image (find magic_none 0 image) off h in fits

-- If the marker is found, the kernel was built for the same slab size and the routes fit, then
-- `package` writes an image that starts with the bytes in front of the slab, unchanged, and goes on
-- with a slab that holds the routes, cut behind the last byte of its content.
pub package_image-Holds :
    (l : Layout) (image : Bytes) (rs : List PageRoute) (off : ℕ)
    → find_slab_offset l image ≡ ok off
    → verify_kernel_ksize l image off ≡ ok tt
    → Fits l rs
    → (slab : Bytes) × Holds l rs slab
      × (package_image l image rs
          ≡ ok (take off image ++ take (content_off l + length (contents rs)) slab))
unfolding package_image
package_image-Holds l image rs off found checked v =
    let (slab, built, holds) = build_slab-Holds l rs v in
    let inside = find_slab_offset-inside l image off found in
    let cut =
      cut_lem image slab (drop (off + slab_size l) image) off (content_off l + length (contents rs))
        (off + content_off l + length (contents rs)) (omega (arith, inside))
        (omega (arith, holds.size, v.content_fits)) (omega arith) in
    (slab, holds, rw (found, checked, built, holds.content_len) (ap ok cut))
