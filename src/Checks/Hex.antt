-- ===== src/Checks/Hex.antt =====
-- The Intel HEX records of scripts/intel_hex.py on small inputs.
use ws_pi.Base.{◌≡◌, refl, arith, some, List, [], ◌∷◌, ok, true, false}
use ws_pi.Base.Bytes.{Bytes}
use ws_pi.IntelHex.{Text, make_hex_record, verify_checksum, parse_hex_record, kernel_to_hex_records}
use ws_pi.IntelHex.{hex_upper, fromhex, sum, is_space, hex_digit, digit_value}
use ws_pi.IntelHex.Record.{parse_hex_record-make_hex_record, verify_checksum-damage}
use ws_pi.IntelHex.Loader.{load, placed}
use ws_pi.IntelHex.Kernel.{load-kernel_to_hex_records}

abbrev kernel : Bytes
kernel = 0xd5 ∷ 0x03 ∷ 0x20 ∷ 0x5f ∷ 0x17 ∷ []

parse_hex_record-make_hex_record_example :
    (text : Text) × (make_hex_record 0 0x18000 kernel ≡ ok text)
    × (verify_checksum text ≡ ok true)
    × (parse_hex_record text
        ≡ ok
            (some (record { kind = 0; address = 0x8000; payload = kernel; checksum_valid = true })))
parse_hex_record-make_hex_record_example =
    parse_hex_record-make_hex_record 0 0x18000 kernel (omega arith) (omega arith) (omega arith)

-- `:00000001FF`, the end record.
eof_record : verify_checksum (b':' ∷ hex_upper (0 ∷ 0 ∷ 0 ∷ 1 ∷ 0xff ∷ [])) ≡ ok true
unfolding verify_checksum hex_upper fromhex sum is_space hex_digit digit_value
eof_record = refl

verify_checksum-damage_example :
    verify_checksum (b':' ∷ hex_upper (0 ∷ 0 ∷ 0 ∷ 3 ∷ 0xff ∷ [])) ≡ ok false
verify_checksum-damage_example =
    verify_checksum-damage (0 ∷ 0 ∷ 0 ∷ []) (0xff ∷ []) 1 3 (omega arith) (omega arith)
      (omega arith) eof_record

load-kernel_to_hex_records_example :
    (records : List Text) × (kernel_to_hex_records kernel 0x80000 16 true ≡ ok records)
    × (load 0 records ≡ ok (placed 0x80000 kernel))
load-kernel_to_hex_records_example =
    load-kernel_to_hex_records kernel 0x80000 16 4096 0 true (omega arith) (omega arith) refl refl
      (omega arith) (omega arith)
