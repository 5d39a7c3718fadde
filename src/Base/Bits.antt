-- ===== src/Base/Bits.antt =====
-- The lowest bit of `bit_or`, from the definition that the native operation stands for.
use Prim.Native.Nat.{ℕ, zero, suc, ◌%◌, bit_or, bit_or-bitwise}
use mathlib.Core.Path.{◌≡◌}
use native.Mathlib.Omega.{arith}

pub bit_or-one : (a : ℕ) → bit_or a 1 % 2 ≡ 1
bit_or-one zero = omega (arith, bit_or-bitwise 0 1)
bit_or-one (suc a) = omega (arith, bit_or-bitwise (suc a) 1)
