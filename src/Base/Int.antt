-- ===== src/Base/Int.antt =====
-- Signed integers over the native numbers, under the library's names: C's `int` and `char` results.
use Prim.Native.Nat.{ℕ, ◌-◌, ◌^◌, ◌%◌}
use mathlib.Core.Bool.{Bool, true, false}
use gopher_server_cross_plat.Base.Tests.{◌==◌, ltb, if◌then◌else◌}

-- `negsuc n` is -(n + 1).
pub data ℤ : Type 0 where
  pos : ℕ → ℤ
  negsuc : ℕ → ℤ

-- -n
abbrev pub negate : ℕ → ℤ
negate n = if n == 0 then pos 0 else negsuc (n - 1)

abbrev pub is_negative : ℤ → Bool
is_negative (pos n) = false
is_negative (negsuc n) = true

-- Equality of C integers.
abbrev pub eqb_ℤ : ℤ → ℤ → Bool
eqb_ℤ (pos a) (pos b) = a == b
eqb_ℤ (negsuc a) (negsuc b) = a == b
eqb_ℤ _ _ = false

-- Conversion to `unsigned int`: modulo 2^32.
abbrev pub to_u32 : ℤ → ℕ
to_u32 (pos n) = n % 2 ^ 32
to_u32 (negsuc n) = 2 ^ 32 - 1 - n % 2 ^ 32

-- Conversion of an `unsigned int` to `int`, as two's complement.
abbrev pub of_u32 : ℕ → ℤ
of_u32 n = if ltb n (2 ^ 31) then pos n else negsuc (2 ^ 32 - 1 - n)

-- `(int)` of a wider signed value.
abbrev pub to_int : ℤ → ℤ
to_int z = of_u32 (to_u32 z)
