-- ===== src/TcpHelpers/Padding.antt =====
-- The padding of `syn_options`: three rounds of the loop are enough.
use ws_pi.Base.{
  ℕ, zero, suc, ◌+◌, ◌-◌, ◌%◌, ◌≤◌, ◌<◌, ◌≡◌, sym, ◌∙◌, ap, arith, [], ◌∷◌, ◌++◌, append_assoc,
  append-nil,
}
use ws_pi.Base.{length, length-append, length-replicate, replicate, ◌==◌, Bool-cases, inl, inr}
use ws_pi.Base.Bytes.{Bytes}
use ws_pi.TcpHelpers.Options.{pad_to_four}

-- The zero bytes that are missing.
abbrev pub gap : ℕ → ℕ
gap n = (4 - n % 4) % 4

pad_to_four-gap :
    (fuel : ℕ) (opts : Bytes)
    → gap (length opts) ≤ fuel
    → pad_to_four fuel opts ≡ opts ++ replicate (gap (length opts)) 0
unfolding pad_to_four
pad_to_four-gap zero opts h =
    let none_missing : gap (length opts) ≡ 0 = omega arith in
    rw none_missing (sym (append-nil opts))
pad_to_four-gap (suc fuel) opts h = elim (Bool-cases (length opts % 4 == 0)) [
  | inl aligned ↦
      let none_missing : gap (length opts) ≡ 0 = ground (arith, aligned) in
      rw (aligned, none_missing) (sym (append-nil opts))
  | inr short ↦
      let longer : length (opts ++ (0 ∷ [])) ≡ length opts + 1 = length-append opts (0 ∷ []) in
      let ragged : 0 < length opts % 4 = ground (arith, short) in
      let less : gap (length opts) ≡ suc (gap (length (opts ++ (0 ∷ [])))) = omega arith in
      rw (short, less)
        (pad_to_four-gap fuel (opts ++ (0 ∷ [])) (omega arith) ∙ append_assoc opts (0 ∷ []) _)
]

-- However many options there are, the padding loop of `syn_options` ends within three rounds: it has
-- added at most three zero bytes behind the options, and the length is a multiple of 4.
pub pad_to_four-aligned :
    (opts : Bytes)
    → (n : ℕ) × (n ≤ 3)
      × (pad_to_four 3 opts ≡ opts ++ replicate n 0)
      × (length (pad_to_four 3 opts) % 4 ≡ 0)
pad_to_four-aligned opts =
    let padded = pad_to_four-gap 3 opts (omega arith) in
    (
      gap (length opts),
      omega arith,
      padded,
      omega (
        arith,
        ap length padded,
        length-append opts (replicate (gap (length opts)) 0),
        length-replicate {A = ℕ} (gap (length opts)) 0,
      ),
    )
