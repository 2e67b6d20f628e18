-- ===== src/Prelude/Words.antt =====
-- 32-bit words (`DWORD`, `unsigned`) as native numbers below 2 ^ 32.
use Prim.Native.Nat.{ℕ, ◌+◌, ◌-◌, ◌/◌, ◌%◌, ◌^◌}
use mathlib.Core.Bool.{Bool, ◌&&◌}
use wc3env.Prelude.Tests.{ltb, ◌==◌}

-- `a + b` and `a - b` on `DWORD`: `-` on ℕ stops at 0, so the modulus is added first.
abbrev pub add32 : ℕ → ℕ → ℕ
add32 a b = (a + b) % 2 ^ 32

abbrev pub sub32 : ℕ → ℕ → ℕ
sub32 a b = (a + 2 ^ 32 - b) % 2 ^ 32

-- `(LONG)w > 0` and `(LONG)w >= 0` of a word read as a signed number.
abbrev pub long_pos : ℕ → Bool
long_pos w = ltb 0 w && ltb w (2 ^ 31)

abbrev pub long_nonneg : ℕ → Bool
long_nonneg w = ltb w (2 ^ 31)

-- Bit `p` of a mask: `mask >> p & 1`.
abbrev pub test_bit : ℕ → ℕ → Bool
test_bit mask p = mask / 2 ^ p % 2 == 1
