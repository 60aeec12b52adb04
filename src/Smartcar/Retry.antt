-- ===== src/Smartcar/Retry.antt =====
-- shouldRetryStatus, shouldRetryError and retryDelay of internal/smartcar/client.go.
pub mod Laws
use toyotaview.Common.{
  ℕ, ◌+◌, ◌*◌, ◌%◌, ◌^◌, ◌-◌, ℤ, pos, negsuc, ltb, ltb_ℤ, ◌-ℤ◌, ◌+ℤ◌, Bool, false, ◌||◌, ◌==◌,
  Option, none, some, Str, String, GoError, sentinel, canceled, deadline_exceeded, is_error,
  is_empty, new_error, formatted, counted, wrapped, wrapped_with, api_error, api_caused, foreign,
  formatted_with, Duration, if◌then◌else◌,
}
use toyotaview.Common.Number.{atoi}
use toyotaview.Smartcar.Http.{Net}

unfoldable pub should_retry_status : ℕ → Bool
should_retry_status n = n == 429 || n == 502 || n == 503 || n == 504

-- errors.As to net.Error. context.DeadlineExceeded is one; context.Canceled and the program's own
-- errors are not.
unfoldable pub is_net_error : GoError → Bool
is_net_error (sentinel s) = is_error deadline_exceeded (sentinel s)
is_net_error (new_error m) = false
is_net_error (formatted m args) = false
is_net_error (counted m a b) = false
is_net_error (wrapped m e) = is_net_error e
is_net_error (wrapped_with e m) = is_net_error e
is_net_error (formatted_with m args e) = is_net_error e
is_net_error (api_error i) = false
is_net_error (api_caused i e) = is_net_error e
is_net_error (foreign m n) = n

unfoldable pub should_retry_error : GoError → Bool
should_retry_error e =
    if is_error canceled e || is_error deadline_exceeded e then false else is_net_error e

-- An integer wrapped around to 64 bits, of a product of non-negative numbers.
unfoldable pub wrap_nat : ℕ → ℤ
wrap_nat n = let m = n % 2 ^ 64 in if ltb m (2 ^ 63) then pos m else negsuc (2 ^ 64 - m - 1)

-- `time.Duration(seconds) * time.Second`.
unfoldable pub seconds_duration : ℤ → Duration
seconds_duration (pos n) = wrap_nat (n * 1_000_000_000)
seconds_duration (negsuc n) = wrap_nat (2 ^ 64 - (n + 1) * 1_000_000_000 % 2 ^ 64)

-- The delay that doubles, with a jitter of at most 100 ms. From attempt 63 on the conversion of
-- the float overflows, which on amd64 leaves a product of 0 as here.
unfoldable pub backoff_delay : ℕ → ℕ → Duration
backoff_delay attempt nanos = wrap_nat (2 ^ attempt * 200_000_000) +ℤ pos (nanos % 100_000_001)

module _ {W : Type 0} (net : Net W) where
  -- The wait that a Retry-After header asks for, if it is read.
  unfoldable pub retry_after : Str → W → Option Duration
  retry_after value w = if is_empty value then none else elim (atoi value) [
    | some n ↦ some (seconds_duration n)
    | none ↦ elim (net.parse_http_time value) [
      | none ↦ none
      | some when ↦ if ltb_ℤ (pos 0) (when -ℤ net.now w) then some (when -ℤ net.now w) else none
    ]
  ]

  unfoldable pub retry_delay : Option (String → Str) → ℕ → W → Duration
  retry_delay headers attempt w = elim headers [
    | none ↦ backoff_delay attempt (net.unix_nano w)
    | some get ↦ elim (retry_after (get "Retry-After") w) [
      | some delay ↦ delay
      | none ↦ backoff_delay attempt (net.unix_nano w)
    ]
  ]
