-- ===== src/Base/Bits.antt =====
-- Facts about the native bit operations, over small ranges by evaluation.
use Prim.Native.Nat.{ℕ, zero, suc, ◌+◌, ◌<◌, bit_or}
use mathlib.Core.Path.{◌≡◌, refl}
use mathlib.Core.Bool.{Bool, true, ◌&&◌}
use native.Mathlib.Omega.{arith}
use opendiag_firmware.Base.Tests.{◌==◌}

-- A test holds for the first `k` numbers.
unfoldable pub every_below : (ℕ → Bool) → ℕ → Bool
every_below test zero = true
every_below test (suc k) = every_below test k && test k

pub every_below-true :
    (test : ℕ → Bool) (k x : ℕ) → every_below test k ≡ true → x < k → test x ≡ true
unfolding every_below
every_below-true test zero x e h = absurd (omega arith)
every_below-true test (suc k) x e h = ground (arith, every_below-true test k x)

or_table : every_below (λ x. bit_or 0x10 x == 16 + x && bit_or 0x20 x == 32 + x) 16 ≡ true
unfolding every_below
or_table = refl

or_nibble : (x : ℕ) → x < 16 → (bit_or 0x10 x == 16 + x && bit_or 0x20 x == 32 + x) ≡ true
or_nibble x h = every_below-true _ 16 x or_table h

-- The protocol control bytes: a high digit and a low one.
pub bit_or_first : (x : ℕ) → x < 16 → bit_or 0x10 x ≡ 16 + x
bit_or_first x h = ground (arith, or_nibble x h)

pub bit_or_consecutive : (x : ℕ) → x < 16 → bit_or 0x20 x ≡ 32 + x
bit_or_consecutive x h = ground (arith, or_nibble x h)
