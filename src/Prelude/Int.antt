-- ===== src/Prelude/Int.antt =====
-- Go's signed `int` and `int64`, as integers; `negsuc n` is -(n + 1).
use Prim.Native.Nat.{ℕ, zero, suc, ◌-◌, ◌*◌, ◌/◌, ◌%◌, ◌^◌}
use mathlib.Core.Bool.{Bool, true, false}
use r0rpc.Prelude.Tests.{ltb, eqb, if◌then◌else◌}

pub data ℤ : Type 0 where
  pos : ℕ → ℤ
  negsuc : ℕ → ℤ

-- `x < n` for a constant `n` that is not negative.
abbrev pub lt_const : ℤ → ℕ → Bool
lt_const (pos a) n = ltb a n
lt_const (negsuc a) n = true

-- `x <= 0`
abbrev pub not_positive : ℤ → Bool
not_positive (pos zero) = true
not_positive (pos (suc n)) = false
not_positive (negsuc n) = true

-- The value of an integer that is known not to be negative.
abbrev pub magnitude : ℤ → ℕ
magnitude (pos n) = n
magnitude (negsuc n) = 0

-- `a < b`
abbrev pub lt_int : ℤ → ℤ → Bool
lt_int (pos a) (pos b) = ltb a b
lt_int (pos a) (negsuc b) = false
lt_int (negsuc a) (pos b) = true
lt_int (negsuc a) (negsuc b) = ltb b a

-- The 64-bit integer with the bits of a number.
abbrev pub wrap64 : ℕ → ℤ
wrap64 n =
    let bits = n % 2 ^ 64 in if ltb bits (2 ^ 63) then pos bits else negsuc (2 ^ 64 - 1 - bits)

-- `a * k` for a constant `k`, which wraps around.
abbrev pub times : ℤ → ℕ → ℤ
times (pos a) k = wrap64 (a * k)
times (negsuc a) k = wrap64 (2 ^ 64 - suc a * k % 2 ^ 64)

-- `a / k` for a constant `k`, rounded towards zero.
abbrev pub quotient : ℤ → ℕ → ℤ
quotient (pos a) k = pos (a / k)
quotient (negsuc a) k = if eqb (suc a / k) 0 then pos 0 else negsuc (suc a / k - 1)
