-- ===== src/Appliance/Built.antt =====
-- What `build_slab` returns, as a whole.
use ws_pi.Base.{
  ℕ, zero, suc, ◌+◌, ◌-◌, ◌*◌, ◌^◌, ◌≤◌, ◌<◌, ◌≡◌, refl, sym, ◌∙◌, ap, arith, List, [], ◌∷◌, ◌++◌,
  append_assoc,
}
use ws_pi.Base.{true, length, length-append, length-replicate, drop, replicate, leb, All}
use ws_pi.Base.{ok, le→leb}
use ws_pi.Base.Bytes.{Bytes, le32}
use ws_pi.Appliance.{
  Layout, PageRoute, content_off, slab_size, magic_v1, pack_into, add_routes, build_slab, put,
}
use ws_pi.Appliance.Entries.{pack_into-append, pack_le32-eq_ok, put-append}
use ws_pi.Appliance.Slab.{IsPage, entries, contents, blank, add_routes-blank, bind_ok}

abbrev pub zeros : ℕ → Bytes
zeros n = replicate n 0

-- The routes fit the layout.
pub record Fits (l : Layout) (rs : List PageRoute) : Type 0 where
  pub pages : All IsPage rs
  pub routes_fit : length rs ≤ l.max_routes
  pub content_fits : length (contents rs) ≤ l.content_max
  pub layout_small : slab_size l < 2 ^ 32

abbrev pub slab_header : ℕ → ℕ → Bytes
slab_header n clen = magic_v1 ++ (le32 1 ++ (le32 n ++ (le32 clen ++ zeros 4)))

abbrev pub table_bytes : Layout → List PageRoute → Bytes
table_bytes l rs = entries 0 rs ++ blank (l.max_routes - length rs)

abbrev pub padding : Layout → List PageRoute → Bytes
padding l rs = zeros (l.content_max - length (contents rs))

abbrev pub slab_bytes : Layout → List PageRoute → Bytes
slab_bytes l rs =
    slab_header (length rs) (length (contents rs))
    ++ (table_bytes l rs ++ (contents rs ++ padding l rs))

replicate-add : (m n : ℕ) → zeros (m + n) ≡ zeros m ++ zeros n
replicate-add zero n = let same : 0 + n ≡ n = omega arith in ap (λ k. zeros k) same
replicate-add (suc m) n =
    let same : suc m + n ≡ suc (m + n) = omega arith in
    ap (λ k. zeros k) same ∙ ap (λ t. 0 ∷ t) (replicate-add m n)

replicate-blank : (n : ℕ) → zeros (n * 48) ≡ blank n
replicate-blank zero = refl
replicate-blank (suc n) =
    let same : suc n * 48 ≡ 48 + n * 48 = omega arith in
    ap (λ k. zeros k) same ∙ replicate-add 48 (n * 48) ∙ ap (λ t. zeros 48 ++ t) (replicate-blank n)

-- The empty slab, in its parts.
empty_slab :
    (l : Layout) → zeros (slab_size l) ≡ zeros 24 ++ (blank l.max_routes ++ zeros l.content_max)
empty_slab l =
    replicate-add (content_off l) l.content_max
    ∙ ap (λ t. t ++ zeros l.content_max)
        (replicate-add 24 (l.max_routes * 48)
          ∙ ap (λ t. zeros 24 ++ t) (replicate-blank l.max_routes))

drop-replicate : (k n : ℕ) → drop k (zeros n) ≡ zeros (n - k)
drop-replicate zero n = let same : n - 0 ≡ n = omega arith in rw same
drop-replicate (suc k) zero = let same : 0 - suc k ≡ 0 = omega arith in rw same
drop-replicate (suc k) (suc n) =
    let same : suc n - suc k ≡ n - k = omega arith in rw same (drop-replicate k n)

length-blank : (n : ℕ) → length (blank n) ≡ n * 48
length-blank n = ap length (sym (replicate-blank n)) ∙ length-replicate {A = ℕ} (n * 48) 0

pub length-entries : (c : ℕ) (rs : List PageRoute) → length (entries c rs) ≡ length rs * 48
length-entries c [] = refl
length-entries c (r ∷ rs) =
    omega (arith, length-entries (c + length (ws_pi.Appliance.Slab.page_bytes r)) rs)

pub length-table_bytes :
    (l : Layout) (rs : List PageRoute)
    → length rs ≤ l.max_routes
    → length (table_bytes l rs) ≡ l.max_routes * 48
length-table_bytes l rs h = omega (
  arith,
  length-append (entries 0 rs) (blank (l.max_routes - length rs)),
  length-entries 0 rs,
  length-blank (l.max_routes - length rs),
)

module _ (l : Layout) (rs : List PageRoute) (v : Fits l rs) where
  abbrev room : Bytes
  room = zeros l.content_max

  -- The header before the content's length is known.
  abbrev early : Bytes
  early = magic_v1 ++ (le32 1 ++ (le32 (length rs) ++ zeros 8))

  filled :
      add_routes (early ++ (blank l.max_routes ++ room)) [] 0 rs
      ≡ ok (early ++ (table_bytes l rs ++ room), contents rs)
  filled =
      let slots : l.max_routes ≡ length rs + (l.max_routes - length rs) =
        omega (arith, v.routes_fit) in
      let small : 0 + length (contents rs) < 2 ^ 32 =
        omega (arith, v.content_fits, v.layout_small) in
      ap (λ n. add_routes (early ++ (blank n ++ room)) [] 0 rs) slots
      ∙ add_routes-blank room early [] 0 (l.max_routes - length rs) rs refl v.pages small
      ∙ ap (λ t. ok (early ++ t, contents rs))
          (sym (append_assoc (entries 0 rs) (blank (l.max_routes - length rs)) room))

  -- The content, put behind the table.
  placed :
      put
        (content_off l)
        (contents rs)
        (slab_header (length rs) (length (contents rs)) ++ (table_bytes l rs ++ room))
      ≡ slab_bytes l rs
  placed =
      let head = slab_header (length rs) (length (contents rs)) in
      let front = head ++ table_bytes l rs in
      let at : content_off l ≡ length front + 0 =
        omega
          (arith, length-append head (table_bytes l rs), length-table_bytes l rs v.routes_fit) in
      let behind : drop (0 + length (contents rs)) room ≡ padding l rs =
        let same : 0 + length (contents rs) ≡ length (contents rs) = omega arith in
        rw same (drop-replicate (length (contents rs)) l.content_max) in
      ap (put (content_off l) (contents rs)) (sym (append_assoc head (table_bytes l rs) room))
      ∙ ap (λ k. put k (contents rs) (front ++ room)) at
      ∙ put-append front room (contents rs) 0
      ∙ append_assoc head (table_bytes l rs) (contents rs ++ drop (0 + length (contents rs)) room)
      ∙ ap (λ t. head ++ (table_bytes l rs ++ (contents rs ++ t))) behind

  pub build_slab-eq_ok : build_slab l rs ≡ ok (slab_bytes l rs)
  unfolding build_slab
  build_slab-eq_ok =
      let count : leb (length rs) l.max_routes ≡ true = le→leb _ _ v.routes_fit in
      let budget : leb (length (contents rs)) l.content_max ≡ true = le→leb _ _ v.content_fits in
      let n_small : length rs < 2 ^ 32 = omega (arith, v.routes_fit, v.layout_small) in
      let c_small : length (contents rs) < 2 ^ 32 = omega (arith, v.content_fits, v.layout_small) in
      let rest = blank l.max_routes ++ room in
      let done = table_bytes l rs ++ room in
      rw
        (
          count,
          empty_slab l,
          pack_into-append [] (magic_v1 ++ (zeros 16 ++ rest)) (le32 1) 8 8 refl (omega arith),
          pack_le32-eq_ok (length rs) n_small,
          pack_into-append [] (magic_v1 ++ (le32 1 ++ (zeros 12 ++ rest))) (le32 (length rs)) 12 12
              refl (omega arith),
          filled,
          budget,
          pack_le32-eq_ok (length (contents rs)) c_small,
          pack_into-append [] (early ++ done) (le32 (length (contents rs))) 16 16 refl
              (omega arith),
        )
        (ap ok placed)
