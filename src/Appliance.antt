-- ===== src/Appliance.antt =====
-- scripts/mk_appliance.py: the slab of routes in the appliance's kernel image. The sizes that `main` may
-- override are the record Layout. Texts are lists of code points.
pub mod Routes
pub mod Entries
pub mod Slab
pub mod Built
pub mod Served
pub mod Marker
pub mod Published
use ws_pi.Base.{
  ℕ, zero, suc, ◌+◌, ◌-◌, ◌*◌, ◌/◌, ◌%◌, ◌^◌, Option, none, some, List, [], ◌∷◌, ◌++◌, Bool, true,
  false, ◌&&◌, ◌||◌, not,
}
use ws_pi.Base.{length, take, drop, slice, replicate, ltb, leb, ◌==◌, if◌then◌else◌}
use ws_pi.Base.{Result, ok, err, value_error, struct_error, index_error, guard, ◌>>=◌, ◌>>◌}
use ws_pi.Base.Bytes.{Bytes, le32, le32_at, pack_le32}
use ws_pi.Base.Texts.{Text}

-- `WSPINONE`
abbrev pub magic_none : Bytes
magic_none = 87 ∷ 83 ∷ 80 ∷ 73 ∷ 78 ∷ 79 ∷ 78 ∷ 69 ∷ []

-- `WSPIAPLI`
abbrev pub magic_v1 : Bytes
magic_v1 = 87 ∷ 83 ∷ 80 ∷ 73 ∷ 65 ∷ 80 ∷ 76 ∷ 73 ∷ []

abbrev pub version_v1 : ℕ
version_v1 = 1

abbrev pub hdr_size : ℕ
hdr_size = 24

abbrev pub route_size : ℕ
route_size = 48

abbrev pub max_path_bytes : ℕ
max_path_bytes = 1024

-- `HM_GET | HM_HEAD`
abbrev pub get_or_head : ℕ
get_or_head = 3

pub record Layout : Type 0 where
  pub max_routes : ℕ
  pub content_max : ℕ

abbrev pub content_off : Layout → ℕ
content_off l = hdr_size + l.max_routes * route_size

abbrev pub slab_size : Layout → ℕ
slab_size l = content_off l + l.content_max

-- One packaged route.
pub record PageRoute : Type 0 where
  pub path : Text
  pub body : Bytes
  pub mime : Text

-- `s.encode("ascii")`: a character above 127 is a `UnicodeEncodeError`, which is a `ValueError`.
abbrev pub all_ascii : Text → Bool
all_ascii [] = true
all_ascii (c ∷ s) = ltb c 128 && all_ascii s

unfoldable pub encode_ascii : Text → Result Bytes
encode_ascii s = do guard (all_ascii s) value_error; ok s

-- The decimal digits of a number, in at most `fuel` + 1 digits.
unfoldable pub digits : ℕ → ℕ → Text
digits zero n = (48 + n % 10) ∷ []
digits (suc fuel) n = elim (ltb n 10) [
  | true ↦ (48 + n) ∷ []
  | false ↦ digits fuel (n / 10) ++ ((48 + n % 10) ∷ [])
]

-- The lines of the header in front of the type and of the length, and the empty line.
abbrev pub status_lines : Text
status_lines =
    72 ∷ 84 ∷ 84 ∷ 80 ∷ 47 ∷ 49 ∷ 46 ∷ 49 ∷ 32 ∷ 50 ∷ 48 ∷ 48 ∷ 32 ∷ 79 ∷ 75 ∷ 13 ∷ 10 ∷ 83 ∷ 101
    ∷ 114 ∷ 118 ∷ 101 ∷ 114 ∷ 58 ∷ 32 ∷ 119 ∷ 115 ∷ 95 ∷ 112 ∷ 105 ∷ 53 ∷ 13 ∷ 10 ∷ 67 ∷ 111 ∷ 110
    ∷ 116 ∷ 101 ∷ 110 ∷ 116 ∷ 45 ∷ 84 ∷ 121 ∷ 112 ∷ 101 ∷ 58 ∷ 32 ∷ []

abbrev pub length_line : Text
length_line =
    13 ∷ 10 ∷ 67 ∷ 111 ∷ 110 ∷ 116 ∷ 101 ∷ 110 ∷ 116 ∷ 45 ∷ 76 ∷ 101 ∷ 110 ∷ 103 ∷ 116 ∷ 104 ∷ 58
    ∷ 32 ∷ []

abbrev pub header_end : Text
header_end = 13 ∷ 10 ∷ 13 ∷ 10 ∷ []

unfoldable pub build_header : ℕ → Text → Result Bytes
unfolding encode_ascii digits
build_header body_len mime =
    encode_ascii
      (status_lines ++ (mime ++ (length_line ++ (digits body_len body_len ++ header_end))))

abbrev pub le64 : ℕ → Bytes
le64 x = le32 (x % 2 ^ 32) ++ le32 (x / 2 ^ 32)

unfoldable pub pack_le64 : ℕ → Result Bytes
pack_le64 x = do guard (ltb x (2 ^ 64)) struct_error; ok (le64 x)

-- `slab[at:at + len(bytes)] = bytes`, inside of the slab.
abbrev pub put : ℕ → Bytes → Bytes → Bytes
put at bytes slab = take at slab ++ (bytes ++ drop (at + length bytes) slab)

-- `struct.pack_into`: a field that does not fit the buffer is a `struct.error`.
unfoldable pub pack_into : Bytes → ℕ → Result Bytes → Result Bytes
pack_into slab at packed = do
  bytes ← packed
  guard (leb (at + length bytes) (length slab)) struct_error
  ok (put at bytes slab)

-- `slab[at] = byte`
unfoldable pub set_byte : Bytes → ℕ → ℕ → Result Bytes
set_byte slab at byte = do guard (ltb at (length slab)) index_error; ok (put at (byte ∷ []) slab)

-- The offsets and lengths of a route's path, body and header in the content.
pub record Extents : Type 0 where
  pub path_off : ℕ
  pub path_len : ℕ
  pub body_off : ℕ
  pub body_len : ℕ
  pub hdr_off : ℕ
  pub hdr_len : ℕ

unfoldable pub emit_route_entry : Bytes → ℕ → Extents → Result Bytes
unfolding pack_into set_byte pack_le32 pack_le64
emit_route_entry slab idx p = do
  let entry = hdr_size + idx * route_size
  s0 ← pack_into slab entry (do a ← pack_le32 p.path_len; b ← pack_le32 p.body_len; ok (a ++ b))
  s1 ← pack_into s0 (entry + 8) (pack_le64 p.path_off)
  s2 ← pack_into s1 (entry + 16) (pack_le64 p.body_off)
  s3 ← pack_into s2 (entry + 24) (pack_le64 p.hdr_off)
  s4 ← pack_into s3 (entry + 32) (pack_le32 p.hdr_len)
  s5 ← set_byte s4 (entry + 36) 0
  set_byte s5 (entry + 37) get_or_head

-- A route that is added behind the content.
unfoldable pub add_route : Bytes → Bytes → ℕ → PageRoute → Result (Bytes × Bytes)
unfolding encode_ascii build_header emit_route_entry
add_route slab content idx route = do
  path_bytes ← encode_ascii route.path
  guard (leb (length path_bytes) max_path_bytes) value_error
  hdr_bytes ← build_header (length route.body) route.mime
  let path_off = length content
  let hdr_off = path_off + length path_bytes
  let body_off = hdr_off + length hdr_bytes
  slab' ← emit_route_entry slab idx (record {
    path_off = path_off;
    path_len = length path_bytes;
    body_off = body_off;
    body_len = length route.body;
    hdr_off = hdr_off;
    hdr_len = length hdr_bytes;
  })
  ok (slab', content ++ (path_bytes ++ (hdr_bytes ++ route.body)))

-- The loop of `build_slab`, from the route with the number `idx` on.
unfoldable pub add_routes : Bytes → Bytes → ℕ → List PageRoute → Result (Bytes × Bytes)
unfolding add_route
add_routes slab content idx [] = ok (slab, content)
add_routes slab content idx (route ∷ routes) = do
  added ← add_route slab content idx route
  add_routes added.0 added.1 (suc idx) routes

unfoldable pub build_slab : Layout → List PageRoute → Result Bytes
unfolding add_routes
build_slab l routes = do
  guard (leb (length routes) l.max_routes) value_error
  let marked = put 0 magic_v1 (replicate (slab_size l) 0)
  versioned ← pack_into marked 8 (pack_le32 version_v1)
  counted ← pack_into versioned 12 (pack_le32 (length routes))
  filled ← add_routes counted [] 0 routes
  guard (leb (length filled.1) l.content_max) value_error
  sized ← pack_into filled.0 16 (pack_le32 (length filled.1))
  ok (put (content_off l) filled.1 sized)

-- `image.find(pattern, at)`, of the bytes of the image from `at` on.
abbrev pub starts_with : Bytes → Bytes → Bool
starts_with [] bytes = true
starts_with (p ∷ pattern) [] = false
starts_with (p ∷ pattern) (b ∷ bytes) = (p == b) && starts_with pattern bytes

unfoldable pub find : Bytes → ℕ → Bytes → Option ℕ
find pattern at [] = if starts_with pattern [] then some at else none
find pattern at (b ∷ bytes) =
    let rest = find pattern (suc at) bytes in
    if starts_with pattern (b ∷ bytes) then some at else rest

abbrev pub is_none : Option ℕ → Bool
is_none none = true
is_none (some at) = false

-- The checks on the marker that was found.
unfoldable pub check_slab : Layout → Bytes → Option ℕ → Result ℕ
unfolding find
check_slab l image none = err value_error
check_slab l image (some off) = do
  guard (is_none (find magic_none (off + 1) (drop (off + 1) image))) value_error
  guard (leb (off + slab_size l) (length image)) value_error
  ok off

unfoldable pub find_slab_offset : Layout → Bytes → Result ℕ
unfolding check_slab find
find_slab_offset l image = check_slab l image (find magic_none 0 image)

unfoldable pub verify_kernel_ksize : Layout → Bytes → ℕ → Result (Unit {0})
verify_kernel_ksize l image slab_off = do
  guard (leb (slab_off + 24) (length image)) struct_error
  guard (le32_at (drop (slab_off + 20) image) == slab_size l) value_error

-- The image that `package` writes.
unfoldable pub package_image : Layout → Bytes → List PageRoute → Result Bytes
unfolding find_slab_offset verify_kernel_ksize build_slab
package_image l image routes = do
  slab_off ← find_slab_offset l image
  verify_kernel_ksize l image slab_off
  slab ← build_slab l routes
  let new_image = take slab_off image ++ (slab ++ drop (slab_off + slab_size l) image)
  ok (take (slab_off + content_off l + le32_at (drop 16 slab)) new_image)
