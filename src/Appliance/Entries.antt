-- ===== src/Appliance/Entries.antt =====
-- The bytes of a route entry, written into a blank slot of the slab.
use ws_pi.Base.{
  ℕ, suc, ◌+◌, ◌*◌, ◌^◌, ◌≤◌, ◌<◌, ◌≡◌, sym, ◌∙◌, ap, arith, [], ◌∷◌, ◌++◌, append_assoc,
}
use ws_pi.Base.{
  true, length, length-append, take, drop, replicate, leb, ltb, drop-drop, drop-append_length,
}
use ws_pi.Base.{ok, le→leb, lt→ltb}
use ws_pi.Base.Bytes.{Bytes, le32, pack_le32}
use ws_pi.Appliance.{
  le64, pack_le64, put, pack_into, set_byte, Extents, emit_route_entry, get_or_head,
}

abbrev pub entry_bytes : Extents → Bytes
entry_bytes p =
    le32 p.path_len
    ++ (le32 p.body_len
        ++ (le64 p.path_off
            ++ (le64 p.body_off
                ++ (le64 p.hdr_off ++ (le32 p.hdr_len ++ (0 ∷ get_or_head ∷ replicate 10 0))))))

-- The fields of an entry fit.
pub record IsPlaced (p : Extents) : Type 0 where
  pub path_len_fits : p.path_len < 2 ^ 32
  pub body_len_fits : p.body_len < 2 ^ 32
  pub hdr_len_fits : p.hdr_len < 2 ^ 32
  pub path_off_fits : p.path_off < 2 ^ 64
  pub body_off_fits : p.body_off < 2 ^ 64
  pub hdr_off_fits : p.hdr_off < 2 ^ 64

pub take-append_add : (pre s : Bytes) (k : ℕ) → take (length pre + k) (pre ++ s) ≡ pre ++ take k s
take-append_add [] s k = let same : 0 + k ≡ k = omega arith in rw same
take-append_add (x ∷ pre) s k =
    let same : suc (length pre) + k ≡ suc (length pre + k) = omega arith in
    rw same (ap (λ t. x ∷ t) (take-append_add pre s k))

drop-append_more : (pre s : Bytes) (k : ℕ) → drop (length pre + k) (pre ++ s) ≡ drop k s
drop-append_more pre s k =
    sym (drop-drop (length pre) k (pre ++ s)) ∙ ap (drop k) (drop-append_length pre s)

pub put-append :
    (pre s bytes : Bytes) (k : ℕ) → put (length pre + k) bytes (pre ++ s) ≡ pre ++ put k bytes s
put-append pre s bytes k =
    let further : length pre + k + length bytes ≡ length pre + (k + length bytes) = omega arith in
    rw (take-append_add pre s k, further, drop-append_more pre s (k + length bytes))
      (append_assoc pre (take k s) _)

pub pack_into-append :
    (pre s bytes : Bytes) (at k : ℕ)
    → at ≡ length pre + k
    → k + length bytes ≤ length s
    → pack_into (pre ++ s) at (ok bytes) ≡ ok (pre ++ put k bytes s)
unfolding pack_into
pack_into-append pre s bytes at k e h =
    let inside : leb (length pre + k + length bytes) (length (pre ++ s)) ≡ true =
      le→leb _ _ (omega (arith, length-append pre s)) in
    rw (e, inside, put-append pre s bytes k)

pub set_byte-append :
    (pre s : Bytes) (at k byte : ℕ)
    → at ≡ length pre + k
    → k < length s
    → set_byte (pre ++ s) at byte ≡ ok (pre ++ put k (byte ∷ []) s)
unfolding set_byte
set_byte-append pre s at k byte e h =
    let inside : ltb (length pre + k) (length (pre ++ s)) ≡ true =
      lt→ltb _ _ (omega (arith, length-append pre s)) in
    rw (e, inside, put-append pre s (byte ∷ []) k)

pub pack_le32-eq_ok : (x : ℕ) → x < 2 ^ 32 → pack_le32 x ≡ ok (le32 x)
unfolding pack_le32
pack_le32-eq_ok x h = ground arith

pack_le64-eq_ok : (x : ℕ) → x < 2 ^ 64 → pack_le64 x ≡ ok (le64 x)
unfolding pack_le64
pack_le64-eq_ok x h = rw (lt→ltb x (2 ^ 64) h)

pub emit_route_entry-blank :
    (pre post : Bytes) (idx : ℕ) (p : Extents)
    → length pre ≡ 24 + idx * 48
    → IsPlaced p
    → emit_route_entry (pre ++ (replicate 48 0 ++ post)) idx p ≡ ok (pre ++ (entry_bytes p ++ post))
unfolding emit_route_entry
emit_route_entry-blank pre post idx p e v =
    let at : (k : ℕ) → 24 + idx * 48 + k ≡ length pre + k = λ k. omega arith in
    let lengths = le32 p.path_len ++ le32 p.body_len in
    let s0 = lengths ++ (replicate 40 0 ++ post) in
    let s1 = lengths ++ (le64 p.path_off ++ (replicate 32 0 ++ post)) in
    let s2 = lengths ++ (le64 p.path_off ++ (le64 p.body_off ++ (replicate 24 0 ++ post))) in
    let s3 =
      lengths
      ++ (le64 p.path_off ++ (le64 p.body_off ++ (le64 p.hdr_off ++ (replicate 16 0 ++ post)))) in
    let s4 =
      lengths
      ++ (le64 p.path_off
          ++ (le64 p.body_off
              ++ (le64 p.hdr_off ++ (le32 p.hdr_len ++ (replicate 12 0 ++ post))))) in
    let first : pack_into (pre ++ (replicate 48 0 ++ post)) (24 + idx * 48) (ok lengths)
        ≡ ok (pre ++ s0) =
      pack_into-append pre (replicate 48 0 ++ post) lengths (24 + idx * 48) 0 (omega arith)
        (omega arith) in
    rw (
      pack_le32-eq_ok p.path_len v.path_len_fits,
      pack_le32-eq_ok p.body_len v.body_len_fits,
      first,
      pack_le64-eq_ok p.path_off v.path_off_fits,
      pack_into-append pre s0 (le64 p.path_off) (24 + idx * 48 + 8) 8 (at 8) (omega arith),
      pack_le64-eq_ok p.body_off v.body_off_fits,
      pack_into-append pre s1 (le64 p.body_off) (24 + idx * 48 + 16) 16 (at 16) (omega arith),
      pack_le64-eq_ok p.hdr_off v.hdr_off_fits,
      pack_into-append pre s2 (le64 p.hdr_off) (24 + idx * 48 + 24) 24 (at 24) (omega arith),
      pack_le32-eq_ok p.hdr_len v.hdr_len_fits,
      pack_into-append pre s3 (le32 p.hdr_len) (24 + idx * 48 + 32) 32 (at 32) (omega arith),
      set_byte-append pre s4 (24 + idx * 48 + 36) 36 0 (at 36) (omega arith),
      set_byte-append pre s4 (24 + idx * 48 + 37) 37 get_or_head (at 37) (omega arith),
    )
