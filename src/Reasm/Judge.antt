-- ===== src/Reasm/Judge.antt =====
-- The oracle's verdict against a description by the set of 8-byte units that have arrived.
use ws_pi.Base.{ℕ, zero, suc, ◌+◌, ◌-◌, ◌*◌, ◌/◌, ◌≤◌, ◌<◌, ◌≡◌, ◌⊎◌, inl, inr, refl, sym, ◌∙◌}
use ws_pi.Base.{arith, Bool, true, false, ◌&&◌, ◌||◌, length, All, ltb, leb, ◌==◌}
use ws_pi.Base.{if◌then◌else◌, ok, Bool-cases}
use ws_pi.Base.Bytes.{Bytes, IsByte}
use ws_pi.Reasm.{Slot, Outcome, ok_complete, ok_incomplete, drop_overlap, drop_oversized}
use ws_pi.Reasm.{drop_with, freed, overlaps, completion, accept, bitmap_or}
use ws_pi.Reasm.{eth_frame_max}
use ws_pi.Reasm.Bitmap.{has, make_bitmap_lem, bitmap_has_bit_lem, has-bitmap_or, length-bitmap_or}
use ws_pi.Reasm.Bitmap.{bitmap_or-IsByte}
use ws_pi.Reasm.AllSet.{AllSet, bitmap_all_set-Decides}

-- A bitmap of 32 bytes, and a length that fits the buffer.
pub record IsSlot (s : Slot) : Type 0 where
  pub long : length s.bitmap ≡ 32
  pub bytes : All IsByte s.bitmap
  pub fits : s.total_len ≤ 2048

-- Does the fragment cover some byte of the unit `c`?
abbrev pub covers : ℕ → ℕ → ℕ → Bool
covers frag_offset payload_len c =
    leb (frag_offset / 8) c && ltb c ((frag_offset + payload_len + 7) / 8)

abbrev pub units : Slot → ℕ
units s = (s.total_len + 7) / 8

-- `t` is `s` with the fragment's units added, and with its end as the datagram's if it is the last.
pub record IsMerged (s : Slot) (frag_offset payload_len mf_flag : ℕ) (t : Slot) : Type 0 where
  pub apart : (c : ℕ) → covers frag_offset payload_len c ≡ true → has s.bitmap c ≡ false
  pub added : (c : ℕ) → has t.bitmap c ≡ (covers frag_offset payload_len c || has s.bitmap c)
  pub active : t.active ≡ true
  pub last : t.have_last ≡ ((mf_flag == 0) || s.have_last)
  pub total : t.total_len ≡ (if mf_flag == 0 then frag_offset + payload_len else s.total_len)
  pub valid : IsSlot t

-- The verdict on a fragment of at least one byte that fits the buffer.
pub data Accepted (s : Slot) (frag_offset payload_len mf_flag : ℕ) : Outcome → Type 0 where
  overlap :
      (c : ℕ)
      → covers frag_offset payload_len c ≡ true
      → has s.bitmap c ≡ true
      → Accepted s frag_offset payload_len mf_flag (drop_with drop_overlap s)
  incomplete :
      (t : Slot)
      → IsMerged s frag_offset payload_len mf_flag t
      → (t.have_last ≡ false) ⊎ ((c : ℕ) × (c < units t) × (has t.bitmap c ≡ false))
      → Accepted s frag_offset payload_len mf_flag (drop_with ok_incomplete t)
  oversized :
      (t : Slot)
      → IsMerged s frag_offset payload_len mf_flag t
      → t.have_last ≡ true
      → AllSet t.bitmap (units t)
      → eth_frame_max < t.total_len + 14 + 20
      → Accepted s frag_offset payload_len mf_flag (drop_with drop_oversized freed)
  complete :
      (t : Slot)
      → IsMerged s frag_offset payload_len mf_flag t
      → t.have_last ≡ true
      → AllSet t.bitmap (units t)
      → t.total_len + 14 + 20 ≤ eth_frame_max
      → Accepted s frag_offset payload_len mf_flag
          (record { ret_nonzero = 1; reason = ok_complete; post = freed })

overlaps_decides :
    (count b : ℕ) (bm : Bytes)
    → b + count ≤ 8 * length bm
    → (overlaps count b bm ≡ ok true) × ((c : ℕ) × (b ≤ c) × (c < b + count) × (has bm c ≡ true))
      ⊎ (overlaps count b bm ≡ ok false) × ((c : ℕ) → b ≤ c → c < b + count → has bm c ≡ false)
unfolding overlaps
overlaps_decides zero b bm h = inr (refl, λ c l u. absurd (omega arith))
overlaps_decides (suc count) b bm h = elim (Bool-cases (has bm b)) [
  | inl hit ↦
      inl (rw (bitmap_has_bit_lem bm b (omega arith), hit), (b, omega arith, omega arith, hit))
  | inr miss ↦ elim (overlaps_decides count (b + 1) bm (omega arith)) [
    | inl (e, (c, l, u, set)) ↦
        inl (rw (bitmap_has_bit_lem bm b (omega arith), miss) e, (c, omega arith, omega arith, set))
    | inr (e, none_set) ↦ inr (
      rw (bitmap_has_bit_lem bm b (omega arith), miss) e,
      λ c l u. elim (Bool-cases (c == b)) [
        | inl same ↦ let p : c ≡ b = ground arith in rw p miss
        | inr other ↦ none_set c (ground arith) (omega arith)
      ],
    )
  ]
]

completion-Accepted :
    (s t : Slot) (frag_offset payload_len mf_flag : ℕ)
    → IsMerged s frag_offset payload_len mf_flag t
    → (o : Outcome) × (completion t ≡ ok o) × Accepted s frag_offset payload_len mf_flag o
unfolding completion
completion-Accepted s t frag_offset payload_len mf_flag m = elim (Bool-cases t.have_last) [
  | inr open_end ↦
      (drop_with ok_incomplete t, ground (arith, open_end), incomplete t m (inl open_end))
  | inl closed ↦
      elim (bitmap_all_set-Decides t.bitmap (units t) m.valid.bytes
        (omega (arith, m.valid.fits, m.valid.long))) [
          | inr (e, missing) ↦
              (drop_with ok_incomplete t, ground (arith, closed, e), incomplete t m (inr missing))
          | inl (e, set) ↦ elim (Bool-cases (ltb eth_frame_max (t.total_len + 14 + 20))) [
            | inl big ↦
                (_, rw (closed, completion) (rw (e, big)), oversized t m closed set (ground arith))
            | inr small ↦
                (_, rw (closed, completion) (rw (e, small)), complete t m closed set (ground arith))
          ]
        ]
]

module _ (s : Slot) (frag_offset payload_len mf_flag : ℕ) (v : IsSlot s) (on : s.active ≡ true)
    (some_bytes : 0 < payload_len) (room : frag_offset + payload_len ≤ 2048) where
  abbrev end : ℕ
  end = frag_offset + payload_len

  abbrev count : ℕ
  count = (end + 7) / 8 - frag_offset / 8

  merged : Bytes → Slot
  merged new_bm = record {
    active = true;
    have_last = if mf_flag == 0 then true else s.have_last;
    total_len = if mf_flag == 0 then end else s.total_len;
    bitmap = bitmap_or s.bitmap new_bm;
  }

  merged-IsMerged :
      (new_bm : Bytes)
      → length new_bm ≡ 32
      → All IsByte new_bm
      → ((c : ℕ) → has new_bm c ≡ covers frag_offset payload_len c)
      → ((c : ℕ) → frag_offset / 8 ≤ c → c < frag_offset / 8 + count → has s.bitmap c ≡ false)
      → IsMerged s frag_offset payload_len mf_flag (merged new_bm)
  unfolding merged
  merged-IsMerged new_bm long bytes marks clear =
      let same : length s.bitmap ≡ length new_bm = v.long ∙ sym long in
      record {
        apart = λ c h. clear c (ground arith) (ground arith);
        added = λ c. ground (arith, has-bitmap_or s.bitmap new_bm c same, marks c);
        active = refl;
        last = ground arith;
        total = refl;
        valid = record {
          long = length-bitmap_or s.bitmap new_bm same ∙ v.long;
          bytes = bitmap_or-IsByte s.bitmap new_bm v.bytes bytes;
          fits = ground (arith, v.fits);
        };
      }

  pub accept_lem :
      (o : Outcome) × (accept s frag_offset payload_len mf_flag ≡ ok o)
      × Accepted s frag_offset payload_len mf_flag o
  unfolding accept merged
  accept_lem = elim (overlaps_decides count (frag_offset / 8) s.bitmap (omega (arith, v.long))) [
    | inl (e, (c, l, u, set)) ↦
        (drop_with drop_overlap s, ground (arith, e, on), overlap c (ground arith) set)
    | inr (e, clear) ↦
        let (new_bm, made, long, bytes, marks) =
          make_bitmap_lem frag_offset end room (omega arith) in
        let (o, done, verdict) =
          completion-Accepted s (merged new_bm) frag_offset payload_len mf_flag
            (merged-IsMerged new_bm long bytes marks clear) in
        (o, rw (e, made) done, verdict)
  ]
