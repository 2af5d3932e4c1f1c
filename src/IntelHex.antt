-- ===== src/IntelHex.antt =====
-- scripts/intel_hex.py: Intel HEX records. A text is the list of its character codes. A Python integer
-- that the code only masks is a natural number here.
pub mod Digits
pub mod Record
pub mod Loader
pub mod Kernel
use ws_pi.Base.{
  ℕ, zero, suc, ◌+◌, ◌-◌, ◌*◌, ◌/◌, ◌%◌, ◌^◌, ◌≡◌, Option, none, some, List, [], ◌∷◌, ◌++◌,
}
use ws_pi.Base.{Bool, true, false, not, ◌&&◌, ◌||◌, length, take, drop, slice, ltb, leb, ◌==◌}
use ws_pi.Base.{if◌then◌else◌, Result, ok, err, value_error, index_error, out_of_fuel, guard}
use ws_pi.Base.{◌>>=◌, ◌>>◌}
use ws_pi.Base.Bytes.{Bytes, be16_at}

abbrev pub Text : Type 0
Text = List ℕ

-- One digit of `bytes.hex().upper()`.
unfoldable pub hex_digit : ℕ → ℕ
hex_digit d = if ltb d 10 then b'0' + d else b'A' + (d - 10)

-- `raw.hex().upper()`, and `f'{b:02X}'` for one byte.
unfoldable pub hex_upper : Bytes → Text
hex_upper [] = []
hex_upper (b ∷ bs) = hex_digit (b / 16) ∷ hex_digit (b % 16) ∷ hex_upper bs

-- The value of a hexadecimal digit of either case.
unfoldable pub digit_value : ℕ → Option ℕ
digit_value c =
    if leb b'0' c && leb c b'9'
    then some (c - b'0')
    else if leb b'a' c && leb c b'f'
    then some (c - b'a' + 10)
    else if leb b'A' c && leb c b'F'
    then some (c - b'A' + 10)
    else none

-- The ASCII whitespace that `bytes.fromhex` skips before each pair of digits.
unfoldable pub is_space : ℕ → Bool
is_space c = c == b' ' || (leb 9 c && leb c 13)

abbrev pub pair_value : Option ℕ → Option ℕ → Result ℕ
pair_value (some hi) (some lo) = ok (hi * 16 + lo)
pair_value (some hi) none = err value_error
pair_value none lo = err value_error

-- `bytes.fromhex`
unfoldable pub fromhex : Text → Result Bytes
fromhex [] = ok []
fromhex (c ∷ []) = if is_space c then ok [] else err value_error
fromhex (c ∷ d ∷ rest) = elim (is_space c) [
  | true ↦ fromhex (d ∷ rest)
  | false ↦ do b ← pair_value (digit_value c) (digit_value d); bs ← fromhex rest; ok (b ∷ bs)
]

unfoldable pub sum : Bytes → ℕ
sum [] = 0
sum (b ∷ bs) = b + sum bs

-- `(~sum(raw) + 1) & 0xFF`
unfoldable pub record_checksum : Bytes → ℕ
unfolding sum
record_checksum raw = (256 - sum raw % 256) % 256

-- `bytes([ll, addr_hi, addr_lo, rec_type]) + data` refuses a number above 255.
unfoldable pub make_hex_record : ℕ → ℕ → Bytes → Result Text
unfolding hex_upper record_checksum
make_hex_record rec_type address payload = do
  guard (leb (length payload) 255 && leb rec_type 255) value_error
  let raw = length payload ∷ (address / 256 % 256) ∷ (address % 256) ∷ rec_type ∷ payload
  ok (b':' ∷ (hex_upper raw ++ hex_upper (record_checksum raw ∷ [])))

-- An extended-address record for the upper 16 bits.
abbrev pub extended_record : ℕ → Result Text
extended_record upper16 = make_hex_record 4 0 ((upper16 / 256 % 256) ∷ (upper16 % 256) ∷ [])

-- The loop of `kernel_to_hex_records` over what is left of the kernel, with fuel. A round emits an
-- extended-address record first if the offset has left its 16 bits.
unfoldable pub record_loop : ℕ → ℕ → Bytes → ℕ → ℕ → Result (List Text)
record_loop zero chunk_size rest upper16 offset = err out_of_fuel
record_loop (suc fuel) chunk_size [] upper16 offset = ok []
record_loop (suc fuel) chunk_size (b ∷ bs) upper16 offset =
    let chunk = take chunk_size (b ∷ bs) in
    let rest = drop chunk_size (b ∷ bs) in
    elim (ltb 0xffff offset) [
      | true ↦ do
        ext ← extended_record (upper16 + 1)
        r ← make_hex_record 0 0 chunk
        rs ← record_loop fuel chunk_size rest (upper16 + 1) (length chunk)
        ok (ext ∷ r ∷ rs)
      | false ↦ do
        r ← make_hex_record 0 offset chunk
        rs ← record_loop fuel chunk_size rest upper16 (offset + length chunk)
        ok (r ∷ rs)
    ]

abbrev pub eof_records : Bool → Result (List Text)
eof_records false = ok []
eof_records true = do r ← make_hex_record 1 0 []; ok (r ∷ [])

-- `range(0, len(kernel), 0)` is a `ValueError`, raised after the first record is made.
unfoldable pub kernel_to_hex_records : Bytes → ℕ → ℕ → Bool → Result (List Text)
kernel_to_hex_records kernel base_address chunk_size include_eof = do
  let upper16 = base_address / 2 ^ 16 % 2 ^ 16
  first ← extended_record upper16
  guard (not (chunk_size == 0)) value_error
  records ← record_loop (suc (length kernel)) chunk_size kernel upper16 (base_address % 2 ^ 16)
  last ← eof_records include_eof
  ok (first ∷ (records ++ last))

abbrev pub is_odd : ℕ → Bool
is_odd n = not (n % 2 == 0)

unfoldable pub verify_checksum : Text → Result Bool
unfolding fromhex sum
verify_checksum [] = ok false
verify_checksum (c ∷ hex_body) =
    if not (c == b':') || is_odd (length hex_body)
    then ok false
    else do raw ← fromhex hex_body; ok (sum raw % 256 == 0)

pub record HexRecord : Type 0 where
  pub kind : ℕ  -- the key 'type'
  pub address : ℕ
  pub payload : Bytes  -- the key 'data'
  pub checksum_valid : Bool

-- Fewer than four bytes are an `IndexError`.
abbrev pub record_fields : Bytes → Result HexRecord
record_fields (ll ∷ hi ∷ lo ∷ kind ∷ tail) = ok (record {
  kind = kind;
  address = hi * 256 + lo;
  payload = take ll tail;
  checksum_valid = sum (ll ∷ hi ∷ lo ∷ kind ∷ tail) % 256 == 0;
})
record_fields _ = err index_error

-- `none` is Python's `None`, for a text that does not start with a colon.
unfoldable pub parse_hex_record : Text → Result (Option HexRecord)
unfolding fromhex sum
parse_hex_record [] = ok none
parse_hex_record (c ∷ hex_body) =
    if not (c == b':')
    then ok none
    else do raw ← fromhex hex_body; r ← record_fields raw; ok (some r)
