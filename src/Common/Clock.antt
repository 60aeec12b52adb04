-- ===== src/Common/Clock.antt =====
-- package time as the program uses it: instants and durations in nanoseconds.
use toyotaview.Common.Int.{ℤ, pos, ltb_ℤ, ◌+ℤ◌}
use toyotaview.Common.Tests.{◌==◌}
use Prim.Native.Nat.{ℕ, ◌*◌}
use mathlib.Core.Bool.{Bool, false}

-- `time.Duration`, in nanoseconds.
abbrev pub Duration : Type 0
Duration = ℤ

-- `time.Time`, in nanoseconds since the zero instant, the first of January of year 1 in UTC.
abbrev pub Time : Type 0
Time = ℤ

abbrev pub zero_time : Time
zero_time = pos 0

-- The constants `time.Second` and `time.Minute`, times a number.
abbrev pub seconds : ℕ → Duration
seconds n = pos (n * 1_000_000_000)

abbrev pub minutes : ℕ → Duration
minutes n = pos (n * 60_000_000_000)

abbrev pub hours : ℕ → Duration
hours n = pos (n * 3_600_000_000_000)

-- `t.IsZero()`.
abbrev pub is_zero_time : Time → Bool
is_zero_time (pos n) = n == 0
is_zero_time _ = false

-- `a.Before(b)`.
abbrev pub before : Time → Time → Bool
before a b = ltb_ℤ a b

-- `t.Add(d)`.
abbrev pub add_time : Time → Duration → Time
add_time t d = t +ℤ d
