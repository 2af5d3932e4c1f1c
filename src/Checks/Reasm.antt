-- ===== src/Checks/Reasm.antt =====
-- The oracle of scripts/reasm_oracle.py on its named states.
use ws_pi.Base.{◌≡◌, ◌≢◌, ◌⊎◌, refl, arith, ◌∷◌, ok, err, value_error, true, false}
use ws_pi.Base.{replicate}
use ws_pi.Base.{ℕ, length, slice, take, drop}
use ws_pi.Checksum.{ip_checksum}
use ws_pi.Ip.{parse_ipv4_header}
use ws_pi.Ip.RoundTrip.{fields_of}
use ws_pi.Reasm.{second_half}
use ws_pi.Reasm.Vector.{build_fragment_frame, encode_entry, pattern}
use ws_pi.Reasm.FrameLaws.{vector_args, build_fragment_frame-pattern}
use ws_pi.Reasm.EntryLaws.{length-encode_entry}
use ws_pi.Base.Bytes.{Bytes}
use ws_pi.Reasm.{Slot, Outcome, bitmap_all_set}
use ws_pi.Reasm.{first_half, other, oracle}
use ws_pi.Reasm.States.{slot_of, oracle-Verdict}
use ws_pi.Reasm.AllSet.{Decides, bitmap_all_set-Decides}
use ws_pi.Reasm.Judge.{IsSlot}
use ws_pi.Reasm.Verdict.{Verdict}

-- The state `first_half`: the first 50 units have arrived.
abbrev first_fifty : Bytes
first_fifty = 0xff ∷ 0xff ∷ 0xff ∷ 0xff ∷ 0xff ∷ 0xff ∷ 0x03 ∷ replicate 25 0

abbrev half_slot : Slot
half_slot = record { active = true; have_last = false; total_len = 0; bitmap = first_fifty }

bitmap_all_set-Decides_example : Decides (bitmap_all_set first_fifty 50) first_fifty 50
bitmap_all_set-Decides_example = bitmap_all_set-Decides first_fifty 50 (omega arith) (omega arith)

-- The missing half completes the datagram: the frame is delivered and the slot is freed.
oracle-Verdict_example :
    ((first_half ≡ other) × (oracle first_half 400 400 0 true ≡ err value_error))
    ⊎ ((first_half ≢ other)
        × (o : Outcome) × (oracle first_half 400 400 0 true ≡ ok o)
        × Verdict (slot_of first_half) 400 400 0 true o
        × IsSlot o.post)
oracle-Verdict_example = oracle-Verdict first_half 400 400 0 true

build_fragment_frame-pattern_example :
    (frame : Bytes) × (c : ℕ) × (build_fragment_frame 400 24 1 ≡ ok frame)
    × (length frame ≡ 58)
    × (ip_checksum (slice 14 34 frame) ≡ 0)
    × (parse_ipv4_header (drop 14 frame) ≡ ok (fields_of (vector_args 400 24 1) c))
    × (drop 34 frame ≡ pattern 400 24)
build_fragment_frame-pattern_example =
    build_fragment_frame-pattern 400 24 1 (omega arith) refl (omega arith)

length-encode_entry_example :
    (entry frame : Bytes) × (encode_entry second_half 0 200 1 true ≡ ok entry)
    × (length entry ≡ 384)
    × (build_fragment_frame 0 200 1 ≡ ok frame)
    × (take (length frame) (drop 48 entry) ≡ frame)
length-encode_entry_example =
    length-encode_entry second_half 0 200 1 true (λ e. cc) (omega arith) refl (omega arith)
      (omega arith)
