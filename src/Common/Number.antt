-- ===== src/Common/Number.antt =====
-- strconv.Atoi: an optional sign, decimal digits, and the range of a 64-bit integer.
use toyotaview.Common.Int.{ℤ, pos, negsuc}
use toyotaview.Common.Tests.{leb, ltb, ◌==◌, if◌then◌else◌}
use toyotaview.Common.Bytes.{Str}
use Prim.Native.Nat.{ℕ, ◌+◌, ◌-◌, ◌*◌, ◌^◌}
use mathlib.Core.Bool.{Bool, ◌&&◌, true, false}
use mathlib.Core.List.{[], ◌∷◌}
use mathlib.Core.Option.{Option, none, some}

-- The value of a run of digits, read from the left.
unfoldable pub digits_from : ℕ → Str → Option ℕ
digits_from acc [] = some acc
digits_from acc (c ∷ s) =
    let rest = digits_from (acc * 10 + (c - b'0')) s in
    if leb b'0' c && leb c b'9' then rest else none

unfoldable pub digits : Str → Option ℕ
unfolding digits_from
digits [] = none
digits (c ∷ s) = digits_from 0 (c ∷ s)

unfoldable pub signed : Bool → Option ℕ → Option ℤ
signed negative none = none
signed true (some n) =
    if n == 0 then some (pos 0) else if leb n (2 ^ 63) then some (negsuc (n - 1)) else none
signed false (some n) = if ltb n (2 ^ 63) then some (pos n) else none

unfoldable pub atoi : Str → Option ℤ
unfolding digits signed
atoi [] = none
atoi (c ∷ s) =
    if c == b'-'
    then signed true (digits s)
    else if c == b'+'
    then signed false (digits s)
    else signed false (digits (c ∷ s))
