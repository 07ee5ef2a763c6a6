-- ===== src/Prelude/Words.antt =====
-- Machine words: an `unsigned long` is a number below 2 ^ 64 with its wrap-around written out, and
-- an `int` is its 32-bit pattern.
use Prim.Native.Nat.{ℕ, ◌+◌, ◌-◌, ◌%◌, ◌^◌}

-- (unsigned long) of a sum or a product.
abbrev pub u64 : ℕ → ℕ
u64 a = a % 2 ^ 64

-- a - b on unsigned long.
abbrev pub sub64 : ℕ → ℕ → ℕ
sub64 a b = (a + 2 ^ 64 - b) % 2 ^ 64

-- The int -1.
abbrev pub minus_one : ℕ
minus_one = 4294967295
