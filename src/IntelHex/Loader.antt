-- ===== src/IntelHex/Loader.antt =====
-- The records of a kernel, as a loader that follows the Intel HEX format reads them.
use ws_pi.Base.{ℕ, suc, ◌+◌, ◌*◌, ◌/◌, ◌%◌, ◌^◌, ◌≤◌, ◌<◌, ◌≡◌, refl, ap, arith}
use ws_pi.Base.{some, none, List, [], ◌∷◌, ◌++◌, All, true, false, Bool, length}
use ws_pi.Base.{◌==◌, Result, ok, err, value_error, guard, ◌>>=◌, ◌>>◌}
use ws_pi.Base.Bytes.{Bytes, IsByte, be16_at}
use ws_pi.IntelHex.{Text, make_hex_record, extended_record, eof_records}
use ws_pi.IntelHex.{parse_hex_record}
use ws_pi.IntelHex.Record.{parse_hex_record-make_hex_record}

-- The bytes with their addresses, counted up from `address`.
unfoldable pub placed : ℕ → Bytes → List (ℕ × ℕ)
placed address [] = []
placed address (b ∷ bs) = (address, b) ∷ placed (address + 1) bs

-- A loader keeps the upper half of the address. It refuses a record whose checksum is wrong. Type 0
-- places its payload, type 4 sets the upper half, type 1 ends the load, no other type is accepted.
unfoldable pub load : ℕ → List Text → Result (List (ℕ × ℕ))
load upper [] = ok []
load upper (t ∷ ts) = parse_hex_record t >>= elim [
  | none ↦ err value_error
  | some r ↦ guard r.checksum_valid value_error >> elim (r.kind == 1) [
    | true ↦ ok []
    | false ↦ elim (r.kind == 4) [
      | true ↦ load (be16_at r.payload) ts
      | false ↦ do
        guard (r.kind == 0) value_error
        more ← load upper ts
        ok (placed (upper * 2 ^ 16 + r.address) r.payload ++ more)
    ]
  ]
]

pub placed-append :
    (a : ℕ) (xs ys : Bytes) → placed a (xs ++ ys) ≡ placed a xs ++ placed (a + length xs) ys
unfolding placed
placed-append a [] ys = ap (λ t. placed t ys) (omega arith)
placed-append a (x ∷ xs) ys =
    let e : a + 1 + length xs ≡ a + suc (length xs) = omega arith in
    rw (placed-append (a + 1) xs ys, e)

pub load_data :
    (upper offset : ℕ) (chunk : Bytes)
    → offset < 2 ^ 16
    → length chunk ≤ 0xff
    → All IsByte chunk
    → (t : Text) × (make_hex_record 0 offset chunk ≡ ok t)
      × ((ts : List Text)
          → load upper (t ∷ ts)
            ≡ (load upper ts >>= λ more. ok (placed (upper * 2 ^ 16 + offset) chunk ++ more)))
unfolding load
load_data upper offset chunk h hl hb =
    let (t, made, verified, parsed) =
      parse_hex_record-make_hex_record 0 offset chunk (omega arith) hl hb in
    let low : offset % 2 ^ 16 ≡ offset = omega arith in (t, made, λ ts. rw (parsed, low))

pub load_extended :
    (upper up : ℕ)
    → up < 2 ^ 16
    → (t : Text) × (extended_record up ≡ ok t)
      × ((ts : List Text) → load upper (t ∷ ts) ≡ load up ts)
unfolding load
load_extended upper up h =
    let half = (up / 256 % 256) ∷ (up % 256) ∷ [] in
    let (t, made, verified, parsed) =
      parse_hex_record-make_hex_record 4 0 half (omega arith) (omega arith) (omega arith) in
    let same : up / 256 % 256 * 256 + up % 256 ≡ up = omega arith in
    (t, made, λ ts. rw (parsed, same))

pub load_eof :
    (include_eof : Bool)
    → (ts : List Text) × (eof_records include_eof ≡ ok ts) × ((u : ℕ) → load u ts ≡ ok [])
unfolding load
load_eof false = ([], refl, λ u. refl)
load_eof true =
    let (t, made, verified, parsed) =
      parse_hex_record-make_hex_record 1 0 [] (omega arith) (omega arith) tt in
    (t ∷ [], rw made, λ u. rw parsed)
