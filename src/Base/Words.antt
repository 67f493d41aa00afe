-- ===== src/Base/Words.antt =====
-- Machine words: the wrap-around of C's unsigned types, and the signed reading of a difference.
use Prim.Native.Nat.{ℕ, ◌+◌, ◌-◌, ◌%◌}
use mathlib.Core.Bool.{Bool}
use opendiag_firmware.Base.Tests.{ltb}

abbrev pub u8 : ℕ → ℕ
u8 a = a % 256

abbrev pub u16 : ℕ → ℕ
u16 a = a % 65536

abbrev pub u32 : ℕ → ℕ
u32 a = a % 4294967296

-- `a - b` on uint32_t; `-` on ℕ stops at 0, so the modulus is added first.
abbrev pub sub32 : ℕ → ℕ → ℕ
sub32 a b = (a + 4294967296 - b) % 4294967296

-- `(int32_t)(a - b) >= 0`.
abbrev pub at_or_after : ℕ → ℕ → Bool
at_or_after a b = ltb (sub32 a b) 2147483648
