-- ===== src/IntelHex/Record.antt =====
-- One record: made, verified and parsed.
use ws_pi.Base.{ℕ, ◌+◌, ◌*◌, ◌/◌, ◌%◌, ◌^◌, ◌≤◌, ◌<◌, ◌≡◌, ◌≢◌, refl, arith}
use ws_pi.Base.{some, [], ◌∷◌, ◌++◌, All, All-append, true, false, length, ◌==◌}
use ws_pi.Base.{take-append_length, ok}
use ws_pi.Base.Bytes.{Bytes, IsByte}
use ws_pi.IntelHex.{Text, hex_upper, sum, record_checksum, make_hex_record}
use ws_pi.IntelHex.{verify_checksum, parse_hex_record}
use ws_pi.IntelHex.Digits.{fromhex-hex_upper, length-hex_upper, hex_upper-append}

pub sum-append : (xs ys : Bytes) → sum (xs ++ ys) ≡ sum xs + sum ys
unfolding sum
sum-append [] ys = omega arith
sum-append (x ∷ xs) ys = omega (arith, sum-append xs ys)

abbrev pub raw_of : ℕ → ℕ → Bytes → Bytes
raw_of kind address payload =
    length payload ∷ (address / 256 % 256) ∷ (address % 256) ∷ kind ∷ payload

-- The bytes of a record, its checksum included.
abbrev pub whole_of : ℕ → ℕ → Bytes → Bytes
whole_of kind address payload =
    let raw = raw_of kind address payload in raw ++ (record_checksum raw ∷ [])

record_checksum_closes : (raw : Bytes) → sum (raw ++ (record_checksum raw ∷ [])) % 256 ≡ 0
unfolding record_checksum
record_checksum_closes raw = omega (arith, sum-append raw (record_checksum raw ∷ []))

record_checksum-lt : (raw : Bytes) → record_checksum raw < 256
unfolding record_checksum
record_checksum-lt raw = omega arith

module _ (kind address : ℕ) (payload : Bytes) (hk : kind ≤ 0xff) (hl : length payload ≤ 0xff)
    (hb : All IsByte payload) where
  make_hex_record-eq_ok :
      make_hex_record kind address payload ≡ ok (b':' ∷ hex_upper (whole_of kind address payload))
  unfolding make_hex_record
  make_hex_record-eq_ok =
      let raw = raw_of kind address payload in
      rw (← hex_upper-append raw (record_checksum raw ∷ [])) (ground arith)

  whole_of-IsByte : All IsByte (whole_of kind address payload)
  whole_of-IsByte =
      let raw = raw_of kind address payload in
      All-append IsByte raw (record_checksum raw ∷ [])
        (omega arith, (omega arith, (omega arith, (omega arith, hb)))) (record_checksum-lt raw, tt)

-- The text of bytes verifies exactly if they sum to a multiple of 256.
verify_text :
    (raw : Bytes)
    → All IsByte raw
    → verify_checksum (b':' ∷ hex_upper raw) ≡ ok (sum raw % 256 == 0)
unfolding verify_checksum
verify_text raw h =
    let even : length (hex_upper raw) % 2 ≡ 0 = omega (arith, length-hex_upper raw) in
    rw (even, fromhex-hex_upper raw h)

parse_whole :
    (kind address : ℕ) (payload : Bytes)
    → All IsByte (whole_of kind address payload)
    → sum (whole_of kind address payload) % 256 ≡ 0
    → parse_hex_record (b':' ∷ hex_upper (whole_of kind address payload))
      ≡ ok (
          some (record {
            kind = kind;
            address = address % 2 ^ 16;
            payload = payload;
            checksum_valid = true;
          }))
unfolding parse_hex_record
parse_whole kind address payload h c =
    let raw = raw_of kind address payload in
    let low : address / 256 % 256 * 256 + address % 256 ≡ address % 2 ^ 16 = omega arith in
    rw (
      fromhex-hex_upper (whole_of kind address payload) h,
      take-append_length payload (record_checksum raw ∷ []),
      c,
      low,
    )

-- A record type and at most 255 payload bytes, all of them byte values, make a record that
-- `verify_checksum` accepts and from which `parse_hex_record` reads back the type, the low 16 bits of
-- the address and the payload, with a valid checksum.
pub parse_hex_record-make_hex_record :
    (kind address : ℕ) (payload : Bytes)
    → kind ≤ 0xff
    → length payload ≤ 0xff
    → All IsByte payload
    → (text : Text) × (make_hex_record kind address payload ≡ ok text)
      × (verify_checksum text ≡ ok true)
      × (parse_hex_record text
          ≡ ok (
              some (record {
                kind = kind;
                address = address % 2 ^ 16;
                payload = payload;
                checksum_valid = true;
              })))
parse_hex_record-make_hex_record kind address payload hk hl hb =
    let whole = whole_of kind address payload in
    let bytes : All IsByte whole = whole_of-IsByte kind address payload hk hl hb in
    let closes : sum whole % 256 ≡ 0 = record_checksum_closes (raw_of kind address payload) in
    (
      b':' ∷ hex_upper whole,
      make_hex_record-eq_ok kind address payload hk hl hb,
      rw (verify_text whole bytes, closes),
      parse_whole kind address payload bytes closes,
    )

All-middle : (pre post : Bytes) (x : ℕ) → All IsByte (pre ++ (x ∷ post)) → IsByte x
All-middle [] post x h = h.0
All-middle (p ∷ pre) post x h = All-middle pre post x h.1

All-replaced :
    (pre post : Bytes) (x y : ℕ)
    → All IsByte (pre ++ (x ∷ post))
    → IsByte y
    → All IsByte (pre ++ (y ∷ post))
All-replaced [] post x y h k = (k, h.1)
All-replaced (p ∷ pre) post x y h k = (h.0, All-replaced pre post x y h.1 k)

sum-cons : (x : ℕ) (xs : Bytes) → sum (x ∷ xs) ≡ x + sum xs
unfolding sum
sum-cons x xs = refl

-- In a record that `verify_checksum` accepts, another value in one of its bytes is noticed.
pub verify_checksum-damage :
    (pre post : Bytes) (x y : ℕ)
    → All IsByte (pre ++ (x ∷ post))
    → IsByte y
    → x ≢ y
    → verify_checksum (b':' ∷ hex_upper (pre ++ (x ∷ post))) ≡ ok true
    → verify_checksum (b':' ∷ hex_upper (pre ++ (y ∷ post))) ≡ ok false
verify_checksum-damage pre post x y hb hy ne e =
    rw (verify_text (pre ++ (y ∷ post)) (All-replaced pre post x y hb hy)) (
      ground (
        arith,
        e,
        verify_text (pre ++ (x ∷ post)) hb,
        sum-append pre (x ∷ post),
        sum-append pre (y ∷ post),
        sum-cons x post,
        sum-cons y post,
        All-middle pre post x hb,
      ))
