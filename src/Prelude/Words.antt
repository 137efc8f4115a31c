-- ===== src/Prelude/Words.antt =====
-- Unsigned words of 64 bits, on which sums wrap.
use Prim.Native.Nat.{ℕ, ◌-◌, ◌%◌, ◌^◌}

abbrev pub u64 : ℕ → ℕ
u64 n = n % 2 ^ 64

-- u64::MAX
abbrev pub u64_max : ℕ
u64_max = 2 ^ 64 - 1
