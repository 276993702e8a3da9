-- ===== src/Base/Words.antt =====
-- Machine integers as bit patterns, with the wrap-around written out.
use Prim.Native.Nat.{ℕ, ◌+◌, ◌-◌, ◌%◌, ◌^◌}
use mathlib.Core.Bool.{Bool}
use sentrydns.Base.Tests.{ltb, leb}

-- `int32`: addition and subtraction of 1 wrap; orders compare the signed values, which the shift
-- by 2 ^ 31 makes an order of numbers.
abbrev pub i32_add : ℕ → ℕ → ℕ
i32_add a b = (a + b) % 2 ^ 32

abbrev pub i32_pred : ℕ → ℕ
i32_pred a = (a + (2 ^ 32 - 1)) % 2 ^ 32

abbrev pub i32_shift : ℕ → ℕ
i32_shift a = (a + 2 ^ 31) % 2 ^ 32

abbrev pub i32_leb : ℕ → ℕ → Bool
i32_leb a b = leb (i32_shift a) (i32_shift b)

abbrev pub i32_ltb : ℕ → ℕ → Bool
i32_ltb a b = ltb (i32_shift a) (i32_shift b)

-- An `atomic.Int64` counter's `Add(1)` and `Add(-1)`.
abbrev pub i64_inc : ℕ → ℕ
i64_inc a = (a + 1) % 2 ^ 64

abbrev pub i64_dec : ℕ → ℕ
i64_dec a = (a + (2 ^ 64 - 1)) % 2 ^ 64

abbrev pub i64_add : ℕ → ℕ → ℕ
i64_add a b = (a + b) % 2 ^ 64
