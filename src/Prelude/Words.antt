-- ===== src/Prelude/Words.antt =====
-- Go's `int`, `int64` and `time.Duration` on a 64-bit machine, as bit patterns below 2 ^ 64, and
-- `time.Time` as the nanoseconds since the zero time. A pattern from 2 ^ 63 on stands for a
-- negative number.
use Prim.Native.Nat.{ℕ, ◌+◌, ◌-◌, ◌/◌, ◌%◌, ◌^◌}
use mathlib.Core.Bool.{Bool}
use jira_cdc_git.Prelude.Tests.{ltb, leb, if◌then◌else◌}

abbrev pub word_mod : ℕ
word_mod = 2 ^ 64

abbrev pub sign_bit : ℕ
sign_bit = 2 ^ 63

abbrev pub add64 : ℕ → ℕ → ℕ
add64 a b = (a + b) % word_mod

-- The signed comparison `a < b`.
abbrev pub slt : ℕ → ℕ → Bool
slt a b = ltb ((a + sign_bit) % word_mod) ((b + sign_bit) % word_mod)

-- The signed comparison of two patterns of 32 bits, an `int32`.
abbrev pub slt32 : ℕ → ℕ → Bool
slt32 a b = ltb ((a + 2 ^ 31) % 2 ^ 32) ((b + 2 ^ 31) % 2 ^ 32)

-- `int(x)` of a pattern of 32 bits, which keeps the sign.
abbrev pub int_of32 : ℕ → ℕ
int_of32 x = if ltb x (2 ^ 31) then x else x + (word_mod - 2 ^ 32)

-- The signed quotient by a positive divisor, rounded towards 0.
abbrev pub sdiv_pos : ℕ → ℕ → ℕ
sdiv_pos a b = if ltb a sign_bit then a / b else (word_mod - (word_mod - a) / b) % word_mod

-- `t.Sub(u)`: the difference in nanoseconds, held within the range of an `int64`.
abbrev pub sub_time : ℕ → ℕ → ℕ
sub_time t u =
    if leb u t
    then (if ltb (t - u) sign_bit then t - u else sign_bit - 1)
    else (if leb (u - t) sign_bit then word_mod - (u - t) else sign_bit)

-- `t.IsZero()`.
abbrev pub is_zero_time : ℕ → Bool
is_zero_time t = leb t 0
