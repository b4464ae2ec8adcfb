-- ===== src/Base/Times.antt =====
-- Go's `time.Time` and `time.Duration`. A time is the nanoseconds since the zero time (year 1), so
-- that `IsZero` is a test against 0; a duration is a signed number of nanoseconds.
use Prim.Native.Nat.{ℕ, ◌+◌, ◌-◌, ◌^◌}
use mathlib.Core.Bool.{Bool}
use polymarket_signal_autopi.Base.Booleans.{ltb, leb, nat_beq, if◌then◌else◌}
use polymarket_signal_autopi.Base.Ints.{ℤ, pos, negsuc, sub_ℕ}

abbrev pub Time : Type 0
Time = ℕ

abbrev pub Duration : Type 0
Duration = ℤ

abbrev pub is_zero : Time → Bool
is_zero t = nat_beq t 0

-- `t.Sub(u)` saturates at the ends of `int64`.
abbrev pub since : Time → Time → Duration
since t u =
    if leb (2 ^ 63 + u) t
    then pos (2 ^ 63 - 1)
    else if ltb (2 ^ 63 + t) u
    then negsuc (2 ^ 63 - 1)
    else sub_ℕ t u

-- Nanoseconds in the units that the source writes.
abbrev pub millisecond : ℕ
millisecond = 1_000_000

abbrev pub second : ℕ
second = 1_000_000_000

abbrev pub minute : ℕ
minute = 60_000_000_000
