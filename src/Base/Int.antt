-- ===== src/Base/Int.antt =====
-- Signed integers over the native numbers, as far as the return values of system calls need
-- them: the two conversions between widths that the code makes with `as`, and the checked ones.
use ginit.Base.Tests.{ltb, ◌==◌, if◌then◌else◌}
use Prim.Native.Nat.{ℕ, zero, suc, ◌-◌, ◌%◌, ◌^◌, ◌<◌}
use mathlib.Core.Path.{◌≡◌}
use mathlib.Core.Bool.{Bool, true, false}
use mathlib.Core.Option.{Option, none, some}
use native.Mathlib.Omega.{arith}

-- `negsuc n` is -(n + 1).
pub data ℤ : Type 0 where
  pos : ℕ → ℤ
  negsuc : ℕ → ℤ

abbrev pub neg : ℕ → ℤ
neg zero = pos 0
neg (suc n) = negsuc n

-- `x < 0`
abbrev pub is_neg : ℤ → Bool
is_neg (pos n) = false
is_neg (negsuc n) = true

abbrev pub eq_ℤ : ℤ → ℤ → Bool
eq_ℤ (pos a) (pos b) = a == b
eq_ℤ (negsuc a) (negsuc b) = a == b
eq_ℤ (pos a) (negsuc b) = false
eq_ℤ (negsuc a) (pos b) = false

abbrev pub ltb_ℤ : ℤ → ℤ → Bool
ltb_ℤ (pos a) (pos b) = ltb a b
ltb_ℤ (negsuc a) (negsuc b) = ltb b a
ltb_ℤ (pos a) (negsuc b) = false
ltb_ℤ (negsuc a) (pos b) = true

-- The low `2 ^ 32` residue of an integer.
abbrev low_word : ℤ → ℕ
low_word (pos n) = n % 2 ^ 32
low_word (negsuc n) = 2 ^ 32 - 1 - n % 2 ^ 32

abbrev signed_word : ℕ → ℤ
signed_word u = if ltb u (2 ^ 31) then pos u else negsuc (2 ^ 32 - 1 - u)

-- `x as i32`
unfoldable pub as_i32 : ℤ → ℤ
as_i32 x = signed_word (low_word x)

-- `x as u64`, for a signed `x` of at most 64 bits: the sign is extended.
unfoldable pub as_u64 : ℤ → ℕ
as_u64 (pos n) = n
as_u64 (negsuc n) = 2 ^ 64 - 1 - n

-- The range of an `i32`.
abbrev pub InI32 : ℤ → Type 0
InI32 (pos n) = n < 2 ^ 31
InI32 (negsuc n) = n < 2 ^ 31

-- `i32::try_from(x)`
unfoldable pub try_i32 : ℤ → Option ℤ
try_i32 (pos n) = if ltb n (2 ^ 31) then some (pos n) else none
try_i32 (negsuc n) = if ltb n (2 ^ 31) then some (negsuc n) else none

-- `u32::try_from(x)`
unfoldable pub try_u32 : ℤ → Option ℕ
try_u32 (pos n) = if ltb n (2 ^ 32) then some n else none
try_u32 (negsuc n) = none

-- `usize::try_from(x)`, for an `x` of at most 64 bits
unfoldable pub try_usize : ℤ → Option ℕ
try_usize (pos n) = some n
try_usize (negsuc n) = none

pub as_i32-InI32 : (x : ℤ) → InI32 (as_i32 x)
unfolding as_i32
as_i32-InI32 x = ground arith

pub as_i32_id : (x : ℤ) → InI32 x → as_i32 x ≡ x
unfolding as_i32
as_i32_id x h = ground arith
