-- ===== src/Prelude/Words.antt =====
-- Machine words as native numbers: an `unsigned long` is below 2 ^ 64, an `unsigned int` and the
-- bit pattern of an `int` are below 2 ^ 32. Each operation wraps as the source's does.
use Prim.Native.Nat.{ℕ, ◌+◌, ◌-◌, ◌%◌, ◌^◌}

abbrev pub u32 : ℕ → ℕ
u32 n = n % 2 ^ 32

abbrev pub u64 : ℕ → ℕ
u64 n = n % 2 ^ 64

-- a - b on `unsigned long`.
abbrev pub sub64 : ℕ → ℕ → ℕ
sub64 a b = u64 (a + 2 ^ 64 - b)

-- The pattern of the `int` -n and of the `unsigned long` -n.
abbrev pub neg32 : ℕ → ℕ
neg32 n = 2 ^ 32 - n

abbrev pub neg64 : ℕ → ℕ
neg64 n = 2 ^ 64 - n
