-- ===== src/Eth/Boundary.antt =====
-- The boundary-test frames of hw_test/eth_frames.py: too short, too long, of no known ethertype.
use ws_pi.Base.{ℕ, ◌+◌, ◌≤◌, ◌<◌, ◌≡◌, ◌⊎◌, inl, inr, ◌++◌, arith, append_assoc, refl}
use ws_pi.Base.{length, length-append, length-replicate, replicate, Bool-cases, ltb, leb}
use ws_pi.Base.{Result, ok, err, value_error}
use ws_pi.Base.Bytes.{Bytes, be16}
use ws_pi.Eth.{eth_header_len, eth_min_frame, eth_max_frame, parse_eth_header}
use ws_pi.Eth.{build_runt, build_oversize}
use ws_pi.Eth.Laws.{build_eth_header-eq_ok, parse_eth_header-append}

-- `frame` is what `r` returns: it has `len` bytes, and its header reads back.
abbrev pub IsFrame : Result Bytes → Bytes → Bytes → ℕ → ℕ → Type 0
IsFrame r dst src t len =
    (frame : Bytes) × (r ≡ ok frame)
    × (length frame ≡ len)
    × (parse_eth_header frame ≡ ok (record { dst = dst; src = src; ethertype = t }))

module _ (dst src : Bytes) (t : ℕ) (hd : length dst ≡ 6) (hs : length src ≡ 6)
    (ht : t ≤ 0xffff) where
  header-IsFrame :
      (n len : ℕ)
      → eth_header_len + n ≡ len
      → IsFrame (ok ((dst ++ (src ++ be16 t)) ++ replicate n 0)) dst src t len
  header-IsFrame n len h = (
    _,
    refl,
    rw (length-append, length-append, length-append, hd, hs, length-replicate) (omega arith),
    rw (append_assoc, append_assoc) (parse_eth_header-append dst src t (replicate n 0) hd hs ht),
  )

  -- `build_runt` returns a frame of exactly `len` bytes with a readable header if `len` is at least
  -- 14 and below 60, and raises `ValueError` at every other length.
  pub build_runt_lem :
      (len : ℕ)
      → ((eth_header_len ≤ len)
          × (len < eth_min_frame)
          × IsFrame (build_runt dst src len t) dst src t len)
        ⊎ (((len < eth_header_len) ⊎ (eth_min_frame ≤ len))
            × (build_runt dst src len t ≡ err value_error))
  build_runt_lem len = elim (Bool-cases (ltb len 14)) [
    | inl lo ↦ inr (inl (ground arith), unfold build_runt in ground arith)
    | inr ge ↦ elim (Bool-cases (ltb len 60)) [
      | inl hi ↦ inl (
        ground arith,
        ground arith,
        unfold build_runt in
            rw (ge, hi, build_eth_header-eq_ok dst src t hd hs ht)
              (header-IsFrame _ len (ground arith)),
      )
      | inr no60 ↦ inr (inr (ground arith), unfold build_runt in ground arith)
    ]
  ]

  -- `build_oversize` returns a frame of exactly `len` bytes with a readable header if `len` is above
  -- 1514, and raises `ValueError` at every other length.
  pub build_oversize_lem :
      (len : ℕ)
      → ((eth_max_frame < len) × IsFrame (build_oversize dst src len t) dst src t len)
        ⊎ ((len ≤ eth_max_frame) × (build_oversize dst src len t ≡ err value_error))
  build_oversize_lem len = elim (Bool-cases (leb len 1514)) [
    | inl le ↦ inr (ground arith, unfold build_oversize in ground arith)
    | inr gt ↦ inl (
      ground arith,
      unfold build_oversize in
          rw (gt, build_eth_header-eq_ok dst src t hd hs ht) (header-IsFrame _ len (ground arith)),
    )
  ]
