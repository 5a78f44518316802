-- ===== src/Simulation/Integers.antt =====
-- The integers of Go: int and int64, of 64 bits.
use shard_zero.Prelude.{ℕ, ◌+◌, ◌-◌, ◌*◌, ◌^◌, ◌%◌, Bool, true, false, ltb, if◌then◌else◌}

-- A whole number: itself, or -(n + 1).
pub data ℤ : Type 0 where
  pos : ℕ → ℤ
  negsuc : ℕ → ℤ

-- `i < j`
abbrev pub below : ℤ → ℤ → Bool
below (pos m) (pos n) = ltb m n
below (pos m) (negsuc n) = false
below (negsuc m) (pos n) = true
below (negsuc m) (negsuc n) = ltb n m

-- `i > j`
abbrev pub above : ℤ → ℤ → Bool
above i j = below j i

-- `k * i` for a k above 0, before it wraps around
abbrev pub times : ℤ → ℕ → ℤ
times (pos n) k = pos (n * k)
times (negsuc n) k = negsuc ((n + 1) * k - 1)

abbrev signed : ℕ → ℤ
signed n = if ltb n (2 ^ 63) then pos n else negsuc (2 ^ 64 - 1 - n)

-- What 64 bits hold of a whole number.
unfoldable pub int64 : ℤ → ℤ
int64 (pos n) = signed (n % 2 ^ 64)
int64 (negsuc n) = signed (2 ^ 64 - 1 - n % 2 ^ 64)
