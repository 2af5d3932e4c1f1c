-- ===== src/Base/Bytes.antt =====
-- Python's `bytes` as lists of numbers below 256, and what the code uses of `struct` and `socket`.
use Prim.Native.Nat.{ℕ, ◌+◌, ◌*◌, ◌/◌, ◌%◌, ◌^◌, ◌<◌, ◌≤◌}
use mathlib.Core.Path.{◌≡◌, refl}
use mathlib.Core.Bool.{◌&&◌}
use mathlib.Core.List.{List, [], ◌∷◌}
use native.Mathlib.Omega.{arith}
use ws_pi.Base.Tests.{leb}
use ws_pi.Base.Lists.{length}
use ws_pi.Base.Errors.{Result, ok, struct_error, os_error, guard, ◌>>◌}

abbrev pub Bytes : Type 0
Bytes = List ℕ

abbrev pub IsByte : ℕ → Type 0
IsByte b = b < 256

-- Big-endian and little-endian words, lowest bits only.
abbrev pub be16 : ℕ → Bytes
be16 x = (x / 256 % 256) ∷ (x % 256) ∷ []

abbrev pub be32 : ℕ → Bytes
be32 x = (x / 2 ^ 24 % 256) ∷ (x / 2 ^ 16 % 256) ∷ (x / 256 % 256) ∷ (x % 256) ∷ []

abbrev pub le16 : ℕ → Bytes
le16 x = (x % 256) ∷ (x / 256 % 256) ∷ []

abbrev pub le32 : ℕ → Bytes
le32 x = (x % 256) ∷ (x / 256 % 256) ∷ (x / 2 ^ 16 % 256) ∷ (x / 2 ^ 24 % 256) ∷ []

-- `struct.pack` of one field: an integer outside the field's range is a `struct.error`.
unfoldable pub pack_u8 : ℕ → Result Bytes
pack_u8 x = do guard (leb x 0xff) struct_error; ok (x ∷ [])

unfoldable pub pack_be16 : ℕ → Result Bytes
pack_be16 x = do guard (leb x 0xffff) struct_error; ok (be16 x)

unfoldable pub pack_be32 : ℕ → Result Bytes
pack_be32 x = do guard (leb x 0xffff_ffff) struct_error; ok (be32 x)

unfoldable pub pack_le16 : ℕ → Result Bytes
pack_le16 x = do guard (leb x 0xffff) struct_error; ok (le16 x)

unfoldable pub pack_le32 : ℕ → Result Bytes
pack_le32 x = do guard (leb x 0xffff_ffff) struct_error; ok (le32 x)

pub pack_be16-eq_ok : (x : ℕ) → x ≤ 0xffff → pack_be16 x ≡ ok (be16 x)
unfolding pack_be16
pack_be16-eq_ok x h = ground arith

-- The value of the word at the front of a byte string that is long enough.
abbrev pub be16_at : Bytes → ℕ
be16_at (a ∷ b ∷ r) = a * 256 + b
be16_at _ = 0

abbrev pub le16_at : Bytes → ℕ
le16_at (a ∷ b ∷ r) = a + b * 256
le16_at _ = 0

abbrev pub le32_at : Bytes → ℕ
le32_at (a ∷ b ∷ c ∷ d ∷ r) = a + b * 256 + c * 2 ^ 16 + d * 2 ^ 24
le32_at _ = 0

-- An IPv4 address in dotted-quad form: the four decimal numbers of the text.
pub record IpAddr : Type 0 where
  pub a : ℕ
  pub b : ℕ
  pub c : ℕ
  pub d : ℕ

abbrev pub IsIpAddr : IpAddr → Type 0
IsIpAddr ip = IsByte ip.a × IsByte ip.b × IsByte ip.c × IsByte ip.d

abbrev pub octets : IpAddr → Bytes
octets ip = ip.a ∷ ip.b ∷ ip.c ∷ ip.d ∷ []

-- `socket.inet_aton`: a number above 255 is an `OSError`.
unfoldable pub inet_aton : IpAddr → Result Bytes
inet_aton ip = do
  guard (leb ip.a 255 && leb ip.b 255 && leb ip.c 255 && leb ip.d 255) os_error
  ok (octets ip)

-- `socket.inet_ntoa` of four bytes.
abbrev pub inet_ntoa : Bytes → IpAddr
inet_ntoa (a ∷ b ∷ c ∷ d ∷ r) = record { a = a; b = b; c = c; d = d }
inet_ntoa _ = record { a = 0; b = 0; c = 0; d = 0 }

pub inet_aton-eq_ok : (ip : IpAddr) → IsIpAddr ip → inet_aton ip ≡ ok (octets ip)
unfolding inet_aton
inet_aton-eq_ok ip h = ground arith

-- A byte string of six or four bytes, taken apart.
pub six : (m : Bytes) → length m ≡ 6 → (a b c d e f : ℕ) × (m ≡ a ∷ b ∷ c ∷ d ∷ e ∷ f ∷ [])
six [] h = absurd (omega arith)
six (a ∷ []) h = absurd (omega arith)
six (a ∷ b ∷ []) h = absurd (omega arith)
six (a ∷ b ∷ c ∷ []) h = absurd (omega arith)
six (a ∷ b ∷ c ∷ d ∷ []) h = absurd (omega arith)
six (a ∷ b ∷ c ∷ d ∷ e ∷ []) h = absurd (omega arith)
six (a ∷ b ∷ c ∷ d ∷ e ∷ f ∷ []) h = (a, b, c, d, e, f, refl)
six (a ∷ b ∷ c ∷ d ∷ e ∷ f ∷ g ∷ r) h = absurd (omega arith)
