-- ===== src/Reasm/Preserved.antt =====
-- The slot that `oracle` leaves: well formed, and live only while the datagram is incomplete.
use ws_pi.Base.{ℕ, ◌≡◌, subst, Bool}
use ws_pi.Base.{ok}
use ws_pi.Reasm.{Slot, Outcome, judge}
use ws_pi.Reasm.Judge.{IsSlot, Accepted, overlap, incomplete, oversized, complete}
use ws_pi.Reasm.Verdict.{Verdict, no_payload, beyond_buffer, ragged, pool_full, taken}
use ws_pi.Reasm.Verdict.{fresh-IsSlot, freed-IsSlot, taker-IsSlot, judge-Verdict}

Accepted-IsSlot :
    {s : Slot} {off len mf : ℕ} {o : Outcome} → IsSlot s → Accepted s off len mf o → IsSlot o.post
Accepted-IsSlot v (overlap c covered set) = v
Accepted-IsSlot v (incomplete t m h) = m.valid
Accepted-IsSlot v (oversized t m closed set big) = freed-IsSlot
Accepted-IsSlot v (complete t m closed set small) = freed-IsSlot

Verdict-IsSlot :
    {s : Slot} {off len mf : ℕ} {pool : Bool} {o : Outcome}
    → IsSlot s
    → Verdict s off len mf pool o
    → IsSlot o.post
Verdict-IsSlot v (no_payload h) = v
Verdict-IsSlot v (beyond_buffer h g) = v
Verdict-IsSlot v (ragged h g k l) = v
Verdict-IsSlot v (pool_full h g k l m) = fresh-IsSlot
Verdict-IsSlot {s = s} v (taken h g k l a) = Accepted-IsSlot (taker-IsSlot s s.active v) a

pub judge-IsSlot :
    (s : Slot) (frag_offset payload_len mf_flag : ℕ) (pool_free : Bool) (o : Outcome)
    → IsSlot s
    → judge s frag_offset payload_len mf_flag pool_free ≡ ok o
    → IsSlot o.post
judge-IsSlot s off len mf pool o v h =
    let (found, e, verdict) = judge-Verdict s off len mf pool v in
    let same : found ≡ o = cc in
    subst (λ (x : Outcome). IsSlot x.post) same (Verdict-IsSlot v verdict)
