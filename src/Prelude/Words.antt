-- ===== src/Prelude/Words.antt =====
-- 64-bit words as bit patterns: `uint` and `uint64`, and `int64` (time.Duration) in two's complement.
use Prim.Native.Nat.{ℕ, ◌+◌, ◌-◌, ◌/◌, ◌%◌, ◌^◌}
use mathlib.Core.Bool.{Bool, ◌&&◌}
use close.Prelude.Tests.{ltb, if◌then◌else◌}

abbrev pub u64 : ℕ → ℕ
u64 n = n % 2 ^ 64

abbrev pub sub64 : ℕ → ℕ → ℕ
sub64 a b = (a + 2 ^ 64 - b) % 2 ^ 64

-- An `int64` that is not negative.
abbrev pub is_natural : ℕ → Bool
is_natural a = ltb a (2 ^ 63)

-- `a > 0` on `int64`
abbrev pub is_positive : ℕ → Bool
is_positive a = ltb 0 a && is_natural a

abbrev pub neg64 : ℕ → ℕ
neg64 a = sub64 0 a

-- `a / b` on `int64`, which rounds towards zero
abbrev pub div64 : ℕ → ℕ → ℕ
div64 a b =
    if is_natural a
    then (if is_natural b then a / b else neg64 (a / neg64 b))
    else (if is_natural b then neg64 (neg64 a / b) else u64 (neg64 a / neg64 b))
