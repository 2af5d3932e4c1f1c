-- ===== src/Appliance/Slab.antt =====
-- The slab that `build_slab` makes, as header, entries, blank slots, content and zeros.
use ws_pi.Base.{
  ℕ, zero, suc, ◌+◌, ◌*◌, ◌/◌, ◌%◌, ◌^◌, ◌≤◌, ◌<◌, ◌≡◌, refl, sym, ◌∙◌, ap, arith, List, [], ◌∷◌,
  ◌++◌, append_assoc, append-nil,
}
use ws_pi.Base.{true, false, length, length-append, replicate, ltb, All, Bool-cases, inl, inr}
use ws_pi.Base.{Result, ok, ◌>>=◌, le→leb, ltb→lt}
use ws_pi.Base.Bytes.{Bytes}
use ws_pi.Base.Texts.{Text}
use ws_pi.Appliance.{
  PageRoute, Extents, all_ascii, encode_ascii, digits, status_lines, length_line, header_end,
  build_header, add_route, add_routes,
}
use ws_pi.Appliance.Entries.{entry_bytes, IsPlaced, emit_route_entry-blank}

-- A route that the packager takes.
pub record IsPage (r : PageRoute) : Type 0 where
  pub path_ascii : all_ascii r.path ≡ true
  pub path_fits : length r.path ≤ 1024
  pub mime_ascii : all_ascii r.mime ≡ true

abbrev pub header_bytes : PageRoute → Bytes
header_bytes r =
    status_lines
    ++ (r.mime ++ (length_line ++ (digits (length r.body) (length r.body) ++ header_end)))

all_ascii-append :
    (s t : Text) → all_ascii s ≡ true → all_ascii t ≡ true → all_ascii (s ++ t) ≡ true
all_ascii-append [] t h k = k
all_ascii-append (c ∷ s) t h k = elim (Bool-cases (ltb c 128)) [
  | inl low ↦
      let rest : all_ascii s ≡ true = ground (arith, h, low) in
      rw (low, all_ascii-append s t rest k)
  | inr high ↦ absurd (ground (arith, h, high))
]

digits-zero : (n : ℕ) → digits zero n ≡ (48 + n % 10) ∷ []
unfolding digits
digits-zero n = refl

digits-one : (fuel n : ℕ) → ltb n 10 ≡ true → digits (suc fuel) n ≡ (48 + n) ∷ []
unfolding digits
digits-one fuel n h = rw (digits, h)

digits-more :
    (fuel n : ℕ)
    → ltb n 10 ≡ false
    → digits (suc fuel) n ≡ digits fuel (n / 10) ++ ((48 + n % 10) ∷ [])
unfolding digits
digits-more fuel n h = rw (digits, h)

one_ascii : (n : ℕ) → n < 10 → all_ascii ((48 + n) ∷ []) ≡ true
one_ascii n h = ground arith

all_ascii-digits : (fuel n : ℕ) → all_ascii (digits fuel n) ≡ true
all_ascii-digits zero n = ap all_ascii (digits-zero n) ∙ one_ascii (n % 10) (omega arith)
all_ascii-digits (suc fuel) n = elim (Bool-cases (ltb n 10)) [
  | inl one ↦ ap all_ascii (digits-one fuel n one) ∙ one_ascii n (ltb→lt n 10 one)
  | inr more ↦
      ap all_ascii (digits-more fuel n more)
      ∙ all_ascii-append (digits fuel (n / 10)) _ (all_ascii-digits fuel (n / 10))
          (one_ascii (n % 10) (omega arith))
]

encode_ascii-eq_ok : (s : Text) → all_ascii s ≡ true → encode_ascii s ≡ ok s
unfolding encode_ascii
encode_ascii-eq_ok s h = rw h

build_header-eq_ok :
    (r : PageRoute) → IsPage r → build_header (length r.body) r.mime ≡ ok (header_bytes r)
unfolding build_header
build_header-eq_ok r v =
    let number = digits (length r.body) (length r.body) in
    let number_ascii = all_ascii-digits (length r.body) (length r.body) in
    encode_ascii-eq_ok (header_bytes r) (
      all_ascii-append status_lines (r.mime ++ (length_line ++ (number ++ header_end))) refl (
        all_ascii-append r.mime (length_line ++ (number ++ header_end)) v.mime_ascii (
          all_ascii-append length_line (number ++ header_end) refl
            (all_ascii-append number header_end number_ascii refl))))

-- Where a route goes, behind `c` bytes of content.
abbrev pub places : ℕ → PageRoute → Extents
places c r = record {
  path_off = c;
  path_len = length r.path;
  body_off = c + length r.path + length (header_bytes r);
  body_len = length r.body;
  hdr_off = c + length r.path;
  hdr_len = length (header_bytes r);
}

abbrev pub page_bytes : PageRoute → Bytes
page_bytes r = r.path ++ (header_bytes r ++ r.body)

abbrev pub entries : ℕ → List PageRoute → Bytes
entries c [] = []
entries c (r ∷ rs) = entry_bytes (places c r) ++ entries (c + length (page_bytes r)) rs

abbrev pub contents : List PageRoute → Bytes
contents [] = []
contents (r ∷ rs) = page_bytes r ++ contents rs

-- Slots without an entry.
abbrev pub blank : ℕ → Bytes
blank zero = []
blank (suc n) = replicate 48 0 ++ blank n

length-page_bytes :
    (r : PageRoute)
    → length (page_bytes r) ≡ length r.path + (length (header_bytes r) + length r.body)
length-page_bytes r =
    omega (
      arith,
      length-append r.path (header_bytes r ++ r.body),
      length-append (header_bytes r) r.body,
    )

places-IsPlaced :
    (c : ℕ) (r : PageRoute) → c + length (page_bytes r) < 2 ^ 32 → IsPlaced (places c r)
places-IsPlaced c r h =
    let whole = length-page_bytes r in
    record {
      path_len_fits = omega arith;
      body_len_fits = omega arith;
      hdr_len_fits = omega arith;
      path_off_fits = omega arith;
      body_off_fits = omega arith;
      hdr_off_fits = omega arith;
    }

add_route-blank :
    (pre post content : Bytes) (idx : ℕ) (r : PageRoute)
    → length pre ≡ 24 + idx * 48
    → IsPage r
    → length content + length (page_bytes r) < 2 ^ 32
    → add_route (pre ++ (replicate 48 0 ++ post)) content idx r
      ≡ ok (pre ++ (entry_bytes (places (length content) r) ++ post), content ++ page_bytes r)
unfolding add_route
add_route-blank pre post content idx r e v h = rw (
  encode_ascii-eq_ok r.path v.path_ascii,
  le→leb (length r.path) 1024 v.path_fits,
  build_header-eq_ok r v,
  emit_route_entry-blank pre post idx (places (length content) r) e
      (places-IsPlaced (length content) r h),
)

pub bind_ok :
    {Value Next : Type 0} (first : Result Value) (next : Value → Result Next) {x : Value} {y : Next}
    → first ≡ ok x
    → next x ≡ ok y
    → (first >>= next) ≡ ok y
bind_ok first next e h = ap (λ f. f >>= next) e ∙ h

module _ (tail : Bytes) where
  pub add_routes-blank :
      (pre content : Bytes) (idx m : ℕ) (rs : List PageRoute)
      → length pre ≡ 24 + idx * 48
      → All IsPage rs
      → length content + length (contents rs) < 2 ^ 32
      → add_routes (pre ++ (blank (length rs + m) ++ tail)) content idx rs
        ≡ ok (pre ++ (entries (length content) rs ++ (blank m ++ tail)), content ++ contents rs)
  unfolding add_routes
  add_routes-blank pre content idx m [] e v h =
      let none_left : 0 + m ≡ m = omega arith in rw (none_left, append-nil content)
  add_routes-blank pre content idx m (r ∷ rs) e v h =
      let entry = entry_bytes (places (length content) r) in
      let here : length content + length (page_bytes r) < 2 ^ 32 =
        omega (arith, length-append (page_bytes r) (contents rs)) in
      let more : suc (length rs) + m ≡ suc (length rs + m) = omega arith in
      let content' = content ++ page_bytes r in
      let added = add_route-blank pre (blank (length rs + m) ++ tail) content idx r e v.0 here in
      let grown : length content' ≡ length content + length (page_bytes r) =
        length-append content (page_bytes r) in
      let next =
        add_routes-blank (pre ++ entry) content' (suc idx) m rs
          (omega (arith, e, length-append pre entry)) v.1
          (omega (arith, h, grown, length-append (page_bytes r) (contents rs))) in
      let slots = blank m ++ tail in
      let arranged : pre ++ entry ++ (entries (length content') rs ++ slots)
          ≡ pre ++ (entries (length content) (r ∷ rs) ++ slots) =
        append_assoc pre entry (entries (length content') rs ++ slots)
        ∙ ap (λ n. pre ++ (entry ++ (entries n rs ++ slots))) grown in
      bind_ok (add_route (pre ++ (blank (suc (length rs) + m) ++ tail)) content idx r)
        (λ state. add_routes state.0 state.1 (suc idx) rs)
        (ap (λ k. add_route (pre ++ (blank k ++ tail)) content idx r) more ∙ added)
        (ap (λ t. add_routes t content' (suc idx) rs)
            (sym (append_assoc pre entry (blank (length rs + m) ++ tail)))
          ∙ next
          ∙ ap ok (
              ap (λ t. (t, content' ++ contents rs)) arranged
              ∙ ap (λ c. (pre ++ (entries (length content) (r ∷ rs) ++ slots), c))
                  (append_assoc content (page_bytes r) (contents rs))))
