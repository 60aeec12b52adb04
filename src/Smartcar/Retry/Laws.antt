-- ===== src/Smartcar/Retry/Laws.antt =====
-- Bounds of the delays of internal/smartcar/client.go.
use toyotaview.Common.{ℕ, ◌+◌, ◌*◌, ◌^◌, ◌%◌, ◌≤◌, ◌<◌, pos, ◌+ℤ◌, ◌≡◌, arith}
use native.Mathlib.Nat.{pow-le-pow_right}
use toyotaview.Smartcar.Retry.{wrap_nat, backoff_delay}

wrap_nat_small : (n : ℕ) → n < 2 ^ 63 → wrap_nat n ≡ pos n
unfolding wrap_nat
wrap_nat_small n h = ground arith

-- Up to attempt 35 the delay without a Retry-After header is 200 ms doubled with each attempt, and
-- at most 100 ms more: it is positive and does not overflow.
pub backoff_delay_bounds :
    (attempt nanos : ℕ)
    → attempt ≤ 35
    → (n : ℕ) × (backoff_delay attempt nanos ≡ pos n)
      × (2 ^ attempt * 200_000_000 ≤ n)
      × (n ≤ 2 ^ attempt * 200_000_000 + 100_000_000)
unfolding backoff_delay ◌+ℤ◌
backoff_delay_bounds attempt nanos h =
    let grows : 2 ^ attempt ≤ 2 ^ 35 = pow-le-pow_right (omega arith) h in
    let base : wrap_nat (2 ^ attempt * 200_000_000) ≡ pos (2 ^ attempt * 200_000_000) =
      wrap_nat_small (2 ^ attempt * 200_000_000) (omega (arith, grows)) in
    let jitter = nanos % 100_000_001 in
    (2 ^ attempt * 200_000_000 + jitter, rw base (ground arith), omega arith, omega arith)
