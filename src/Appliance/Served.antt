-- ===== src/Appliance/Served.antt =====
-- The routes that the kernel reads back from a slab.
use ws_pi.Base.{
  ℕ, zero, suc, ◌+◌, ◌-◌, ◌*◌, ◌/◌, ◌%◌, ◌^◌, ◌<◌, ◌≡◌, refl, sym, ◌∙◌, ap, arith, List, [], ◌∷◌,
  ◌++◌, append_assoc, map,
}
use ws_pi.Base.{
  length, length-append, length-replicate, take, drop, get_or, take-append_length,
  drop-append_length, drop-drop,
}
use ws_pi.Base.{ok}
use ws_pi.Base.Bytes.{Bytes, le32, le32_at}
use ws_pi.Appliance.{Layout, PageRoute, content_off, slab_size, magic_v1, get_or_head, build_slab}
use ws_pi.Appliance.Entries.{entry_bytes}
use ws_pi.Appliance.Slab.{header_bytes, page_bytes, places, entries, contents, blank}
use ws_pi.Appliance.Built.{
  Fits, slab_bytes, slab_header, table_bytes, padding, build_slab-eq_ok, length-table_bytes,
}

-- What a reader that follows the table finds for a route.
pub record Served : Type 0 where
  pub path : Bytes
  pub header : Bytes
  pub body : Bytes
  pub flags : ℕ
  pub methods : ℕ

abbrev pub le64_at : Bytes → ℕ
le64_at t = le32_at t + le32_at (drop 4 t) * 2 ^ 32

-- The part of the content that an offset and a length name.
abbrev pub part : ℕ → ℕ → Bytes → Bytes
part off len content = take len (drop off content)

abbrev pub read_entry : Bytes → Bytes → Served
read_entry t content = record {
  path = part (le64_at (drop 8 t)) (le32_at t) content;
  header = part (le64_at (drop 24 t)) (le32_at (drop 32 t)) content;
  body = part (le64_at (drop 16 t)) (le32_at (drop 4 t)) content;
  flags = get_or t 36 0;
  methods = get_or t 37 0;
}

-- As many entries as the header counts.
abbrev pub read_routes : ℕ → Bytes → Bytes → List Served
read_routes zero table content = []
read_routes (suc n) table content = read_entry table content ∷ read_routes n (drop 48 table) content

-- What the packager was given.
abbrev pub served : PageRoute → Served
served r = record {
  path = r.path;
  header = header_bytes r;
  body = r.body;
  flags = 0;
  methods = get_or_head;
}

word : (x : ℕ) → x < 2 ^ 32 → le32_at (le32 x) ≡ x
word x h = omega arith

long : (x : ℕ) → x < 2 ^ 64 → le32_at (le32 (x % 2 ^ 32)) + le32_at (le32 (x / 2 ^ 32)) * 2 ^ 32 ≡ x
long x h =
    let low = word (x % 2 ^ 32) (omega arith) in
    let high = word (x / 2 ^ 32) (omega arith) in omega arith

part_lem :
    (off len : ℕ) (whole a b c : Bytes)
    → off ≡ length a
    → len ≡ length b
    → whole ≡ a ++ (b ++ c)
    → part off len whole ≡ b
part_lem off len whole a b c eo el ew =
    rw (eo, el, ew, drop-append_length a (b ++ c), take-append_length b c)

abbrev static : Bytes → Bytes → Bytes → Served
static path header body = record {
  path = path;
  header = header;
  body = body;
  flags = 0;
  methods = get_or_head;
}

static_cong : {p p' h h' b b' : Bytes} → p ≡ p' → h ≡ h' → b ≡ b' → static p h b ≡ static p' h' b'
static_cong ep eh eb = rw (ep, eh, eb)

module _ (r : PageRoute) (before after : Bytes) where
  abbrev whole : Bytes
  whole = before ++ (page_bytes r ++ after)

  path_at : whole ≡ before ++ (r.path ++ (header_bytes r ++ r.body ++ after))
  path_at = ap (λ t. before ++ t) (append_assoc r.path (header_bytes r ++ r.body) after)

  header_at : whole ≡ before ++ r.path ++ (header_bytes r ++ (r.body ++ after))
  header_at =
      path_at
      ∙ sym (append_assoc before r.path (header_bytes r ++ r.body ++ after))
      ∙ ap (λ t. before ++ r.path ++ t) (append_assoc (header_bytes r) r.body after)

  body_at : whole ≡ before ++ r.path ++ header_bytes r ++ (r.body ++ after)
  body_at = header_at ∙ sym (append_assoc (before ++ r.path) (header_bytes r) (r.body ++ after))

  read_entry-served :
      (rest : Bytes)
      → length before + length (page_bytes r) < 2 ^ 32
      → read_entry (entry_bytes (places (length before) r) ++ rest) whole ≡ served r
  read_entry-served rest h =
      let size : length (page_bytes r) ≡ length r.path + (length (header_bytes r) + length r.body) =
        omega (
          arith,
          length-append r.path (header_bytes r ++ r.body),
          length-append (header_bytes r) r.body,
        ) in
      let p = places (length before) r in
      let path_len = word p.path_len (omega (arith, h, size)) in
      let body_len = word p.body_len (omega (arith, h, size)) in
      let hdr_len = word p.hdr_len (omega (arith, h, size)) in
      let path_off = long p.path_off (omega (arith, h, size)) in
      let body_off = long p.body_off (omega (arith, h, size)) in
      let hdr_off = long p.hdr_off (omega (arith, h, size)) in
      let path =
        part_lem _ _ whole before r.path (header_bytes r ++ r.body ++ after) path_off path_len
          path_at in
      let header =
        part_lem _ _ whole (before ++ r.path) (header_bytes r) (r.body ++ after)
          (hdr_off ∙ sym (length-append before r.path)) hdr_len header_at in
      let body =
        part_lem _ _ whole (before ++ r.path ++ header_bytes r) r.body after
          (body_off
            ∙ omega (
              arith,
              length-append before r.path,
              length-append (before ++ r.path) (header_bytes r),
            ))
          body_len body_at in
      static_cong path header body

read_routes-served :
    (before tail rest : Bytes) (rs : List PageRoute)
    → length before + length (contents rs) < 2 ^ 32
    → read_routes (length rs) (entries (length before) rs ++ rest) (before ++ (contents rs ++ tail))
      ≡ map served rs
read_routes-served before tail rest [] h = refl
read_routes-served before tail rest (r ∷ rs) h =
    let total = length-append (page_bytes r) (contents rs) in
    let next = before ++ page_bytes r in
    let grown : length next ≡ length before + length (page_bytes r) =
      length-append before (page_bytes r) in
    let entry = entry_bytes (places (length before) r) in
    let later = entries (length before + length (page_bytes r)) rs ++ rest in
    let here : before ++ (page_bytes r ++ contents rs ++ tail)
        ≡ before ++ (page_bytes r ++ (contents rs ++ tail)) =
      ap (λ t. before ++ t) (append_assoc (page_bytes r) (contents rs) tail) in
    let there : before ++ (page_bytes r ++ (contents rs ++ tail)) ≡ next ++ (contents rs ++ tail) =
      sym (append_assoc before (page_bytes r) (contents rs ++ tail)) in
    let first = read_entry-served r before (contents rs ++ tail) later (omega (arith, h, total)) in
    let others = read_routes-served next tail rest rs (omega (arith, h, total, grown)) in
    ap (λ w. read_entry (entry ++ later) w ∷ read_routes (length rs) later w) here
    ∙ ap
        (λ s. s ∷ read_routes (length rs) later (before ++ (page_bytes r ++ (contents rs ++ tail))))
        first
    ∙ ap (λ w. served r ∷ read_routes (length rs) later w) there
    ∙ ap
        (λ n.
          served r ∷ read_routes (length rs) (entries n rs ++ rest) (next ++ (contents rs ++ tail)))
        (sym grown)
    ∙ ap (λ ss. served r ∷ ss) others

-- A slab as the kernel finds it: the magic, the version, the length of the content, and the routes that
-- are read through the table.
pub record Holds (l : Layout) (rs : List PageRoute) (slab : Bytes) : Type 0 where
  pub size : length slab ≡ slab_size l
  pub marked : take 8 slab ≡ magic_v1
  pub version : le32_at (drop 8 slab) ≡ 1
  pub content_len : le32_at (drop 16 slab) ≡ length (contents rs)
  pub routes :
      read_routes (le32_at (drop 12 slab)) (drop 24 slab) (drop (content_off l) slab)
      ≡ map served rs

slab_bytes-Holds : (l : Layout) (rs : List PageRoute) → Fits l rs → Holds l rs (slab_bytes l rs)
slab_bytes-Holds l rs v =
    let head = slab_header (length rs) (length (contents rs)) in
    let table = table_bytes l rs in
    let tail = contents rs ++ padding l rs in
    let n = word (length rs) (omega (arith, v.routes_fit, v.layout_small)) in
    let size = length-table_bytes l rs v.routes_fit in
    let off : content_off l ≡ 24 + length table = omega (arith, size) in
    let content : drop (content_off l) (head ++ (table ++ tail)) ≡ tail =
      ap (λ k. drop k (head ++ (table ++ tail))) off
      ∙ sym (drop-drop 24 (length table) (head ++ (table ++ tail)))
      ∙ drop-append_length table tail in
    record {
      size = omega (
        arith,
        length-append table tail,
        length-append (contents rs) (padding l rs),
        length-replicate {A = ℕ} (l.content_max - length (contents rs)) 0,
        size,
        v.content_fits,
      );
      marked = refl;
      version = refl;
      content_len = word (length (contents rs)) (omega (arith, v.content_fits, v.layout_small));
      routes =
          ap (λ k. read_routes k (table ++ tail) (drop (content_off l) (head ++ (table ++ tail)))) n
          ∙ ap (read_routes (length rs) (table ++ tail)) content
          ∙ ap (λ t. read_routes (length rs) t tail)
              (append_assoc (entries 0 rs) (blank (l.max_routes - length rs)) tail)
          ∙ read_routes-served [] (padding l rs) (blank (l.max_routes - length rs) ++ tail) rs
              (omega (arith, v.content_fits, v.layout_small));
    }

-- For routes that fit the layout (ASCII paths of at most 1024 bytes, no more routes than the table has
-- slots, no more content than its region has bytes, a slab below 4 GiB), `build_slab` returns a slab of
-- exactly the layout's size with the magic, version 1 and the content's length, whose table leads to the
-- path, the header and the body of every route in order, with no flags and the methods GET and HEAD.
pub build_slab-Holds :
    (l : Layout) (rs : List PageRoute)
    → Fits l rs
    → (slab : Bytes) × (build_slab l rs ≡ ok slab) × Holds l rs slab
build_slab-Holds l rs v = (slab_bytes l rs, build_slab-eq_ok l rs v, slab_bytes-Holds l rs v)
