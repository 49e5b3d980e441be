-- ===== src/Base/Words.antt =====
-- Machine integers. A value of a w-bit type, signed or not, is its bit pattern, a number below
-- 2 ^ w; -1 is the pattern 2 ^ w - 1. Signed comparisons move the sign bit first.
use Prim.Native.Nat.{ℕ, ◌+◌, ◌-◌, ◌%◌, ◌^◌}
use mathlib.Core.Bool.{Bool}
use kaf_go.Base.Tests.{ltb, leb, if◌then◌else◌}

abbrev pub two32 : ℕ
two32 = 2 ^ 32

abbrev pub two64 : ℕ
two64 = 2 ^ 64

-- The place of a pattern in the signed order of int16, int32 and int64.
abbrev pub rank16 : ℕ → ℕ
rank16 a = (a + 2 ^ 15) % 2 ^ 16

abbrev pub rank32 : ℕ → ℕ
rank32 a = (a + 2 ^ 31) % 2 ^ 32

abbrev pub rank64 : ℕ → ℕ
rank64 a = (a + 2 ^ 63) % 2 ^ 64

abbrev pub slt16 : ℕ → ℕ → Bool
slt16 a b = ltb (rank16 a) (rank16 b)

abbrev pub slt32 : ℕ → ℕ → Bool
slt32 a b = ltb (rank32 a) (rank32 b)

abbrev pub slt64 : ℕ → ℕ → Bool
slt64 a b = ltb (rank64 a) (rank64 b)

abbrev pub sle64 : ℕ → ℕ → Bool
sle64 a b = leb (rank64 a) (rank64 b)

-- The conversions int(x) of an int16 and of an int32: the sign is extended.
abbrev pub extend16 : ℕ → ℕ
extend16 a = if ltb a (2 ^ 15) then a else a + (2 ^ 64 - 2 ^ 16)

abbrev pub extend32 : ℕ → ℕ
extend32 a = if ltb a (2 ^ 31) then a else a + (2 ^ 64 - 2 ^ 32)
