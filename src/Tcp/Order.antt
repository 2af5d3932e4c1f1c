-- ===== src/Tcp/Order.antt =====
-- `to_nbo_ldr` reverses the bytes of a 32-bit number.
use ws_pi.Base.{ℕ, ◌%◌, ◌^◌, ◌≡◌, arith}
use ws_pi.Tcp.Oracle.{to_nbo_ldr}

-- `to_nbo_ldr` is its own inverse on 32-bit numbers, and drops the bits above them.
pub to_nbo_ldr-to_nbo_ldr : (h : ℕ) → to_nbo_ldr (to_nbo_ldr h) ≡ h % 2 ^ 32
unfolding to_nbo_ldr
to_nbo_ldr-to_nbo_ldr h = omega arith
