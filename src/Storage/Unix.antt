-- ===== src/Storage/Unix.antt =====
-- The seconds that internal/storage/storage.go writes in place of instants: time.Unix and the method
-- Unix of package time.
use toyotaview.Common.{◌+◌, ◌*◌, ◌/◌, ℤ, pos, negsuc, ◌+ℤ◌, ◌-ℤ◌, ◌≤ℤ◌, ◌<ℤ◌, Time, ◌≡◌, ap, arith}

-- 1970-01-01 in seconds since the zero instant.
abbrev pub epoch_seconds : ℤ
epoch_seconds = pos 62_135_596_800

-- The whole seconds of a number of nanoseconds, rounded down.
unfoldable pub whole_seconds : ℤ → ℤ
whole_seconds (pos n) = pos (n / 1_000_000_000)
whole_seconds (negsuc n) = negsuc (n / 1_000_000_000)

unfoldable pub nanoseconds_of : ℤ → ℤ
nanoseconds_of (pos n) = pos (n * 1_000_000_000)
nanoseconds_of (negsuc n) = negsuc (n * 1_000_000_000 + 999_999_999)

-- `t.Unix()`.
unfoldable pub to_unix : Time → ℤ
unfolding whole_seconds
to_unix t = whole_seconds t -ℤ epoch_seconds

-- `time.Unix(sec, 0)`.
unfoldable pub from_unix : ℤ → Time
unfolding nanoseconds_of
from_unix seconds = nanoseconds_of (seconds +ℤ epoch_seconds)

cancel : (a b : ℤ) → (a -ℤ b) +ℤ b ≡ a
unfolding ◌+ℤ◌ ◌-ℤ◌
cancel (pos a) (pos b) = ground arith
cancel (pos a) (negsuc b) = ground arith
cancel (negsuc a) (pos b) = ground arith
cancel (negsuc a) (negsuc b) = ground arith

restore : (a b : ℤ) → (a +ℤ b) -ℤ b ≡ a
unfolding ◌+ℤ◌ ◌-ℤ◌
restore (pos a) (pos b) = ground arith
restore (pos a) (negsuc b) = ground arith
restore (negsuc a) (pos b) = ground arith
restore (negsuc a) (negsuc b) = ground arith

whole_seconds-nanoseconds_of : (t : ℤ) → whole_seconds (nanoseconds_of t) ≡ t
unfolding whole_seconds nanoseconds_of
whole_seconds-nanoseconds_of (pos n) = ap pos (omega arith)
whole_seconds-nanoseconds_of (negsuc n) = ap negsuc (omega arith)

-- What is read back in seconds is written in the same seconds.
pub to_unix-from_unix : (seconds : ℤ) → to_unix (from_unix seconds) ≡ seconds
unfolding to_unix from_unix
to_unix-from_unix seconds =
    rw (whole_seconds-nanoseconds_of (seconds +ℤ epoch_seconds)) (restore seconds epoch_seconds)

-- An instant lies in the second that starts here.
abbrev pub IsWithinSecond : Time → Time → Type 0
IsWithinSecond start t = (start ≤ℤ t) × (t <ℤ start +ℤ pos 1_000_000_000)

IsWithinSecond-nanoseconds_of : (t : ℤ) → IsWithinSecond (nanoseconds_of (whole_seconds t)) t
unfolding nanoseconds_of whole_seconds ◌+ℤ◌
IsWithinSecond-nanoseconds_of (pos n) = (omega arith, ground arith)
IsWithinSecond-nanoseconds_of (negsuc n) = (omega arith, ground arith)

-- What is written in seconds and read back is the start of the instant's second.
pub IsWithinSecond-from_unix : (t : Time) → IsWithinSecond (from_unix (to_unix t)) t
unfolding from_unix to_unix
IsWithinSecond-from_unix t =
    rw (cancel (whole_seconds t) epoch_seconds) (IsWithinSecond-nanoseconds_of t)
