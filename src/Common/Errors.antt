-- ===== src/Common/Errors.antt =====
-- Go's `error` values as the program builds and inspects them, and the result of a fallible call.
use Prim.Native.Nat.{ℕ}
use Prim.Native.String.{String}
use mathlib.Core.Path.{◌≡◌, refl}
use mathlib.Core.Logic.{◌⊎◌, inl, inr}
use mathlib.Core.Bool.{Bool, true, false}
use mathlib.Core.Option.{Option, none, some}
use mathlib.Core.List.{List}
use toyotaview.Common.Bytes.{Str}

-- Error values that code compares by identity, in this program and in the packages it calls.
pub data Sentinel : Type 0 where
  no_vehicles vehicle_not_allowed : Sentinel
  invalid_credentials invalid_password invalid_session invalid_username username_taken : Sentinel
  duplicate_user session_not_found user_not_found : Sentinel
  missing_client_id missing_client_secret missing_user_id : Sentinel
  no_rows canceled deadline_exceeded : Sentinel

-- `smartcar.APIError` without the error that it may wrap.
pub record ApiInfo : Type 0 where
  pub operation : String
  pub method : String
  pub url : Str
  pub status : ℕ
  pub request_id : Str
  pub body : Str

-- A formatted message is kept as its format and its arguments.
pub data GoError : Type 0 where
  sentinel : Sentinel → GoError
  new_error : String → GoError
  formatted : String → List Str → GoError
  counted : String → ℕ → ℕ → GoError
  wrapped : String → GoError → GoError
  wrapped_with : GoError → Str → GoError
  formatted_with : String → List Str → GoError → GoError
  api_error : ApiInfo → GoError
  api_caused : ApiInfo → GoError → GoError
  -- An error of another package: its text, and whether it is a `net.Error`.
  foreign : Str → Bool → GoError

pub Sentinel-discrete : Discrete Sentinel
Sentinel-discrete = hlevel

abbrev pub is_yes {ℓ} : {A : Type ℓ} → Dec A → Bool
is_yes (yes p) = true
is_yes (no p) = false

-- errors.Is against one of the values above: the error itself or an error that it wraps.
unfoldable pub is_error : Sentinel → GoError → Bool
unfolding Sentinel-discrete
is_error t (sentinel s) = is_yes (Sentinel-discrete t s)
is_error t (new_error m) = false
is_error t (formatted m args) = false
is_error t (counted m a b) = false
is_error t (wrapped m e) = is_error t e
is_error t (wrapped_with e m) = is_error t e
is_error t (formatted_with m args e) = is_error t e
is_error t (api_error i) = false
is_error t (api_caused i e) = is_error t e
is_error t (foreign m n) = false

-- errors.As to *smartcar.APIError: the first such error of the chain.
unfoldable pub as_api : GoError → Option ApiInfo
as_api (sentinel s) = none
as_api (new_error m) = none
as_api (formatted m args) = none
as_api (counted m a b) = none
as_api (wrapped m e) = as_api e
as_api (wrapped_with e m) = as_api e
as_api (formatted_with m args e) = as_api e
as_api (api_error i) = some i
as_api (api_caused i e) = some i
as_api (foreign m n) = none

-- A call that returns `(value, error)`, where the caller reads the value only without an error.
pub data Result {ℓ} (A : Type ℓ) : Type ℓ where
  ok : A → Result A
  err : GoError → Result A

infixl 5 ◌>>=◌
abbrev pub ◌>>=◌ {ℓ κ} : {A : Type ℓ} {B : Type κ} → Result A → (A → Result B) → Result B
ok a >>= f = f a
err e >>= f = err e

pub Sentinel-refl : (t : Sentinel) → is_error t (sentinel t) ≡ true
unfolding is_error
Sentinel-refl t = elim (Sentinel-discrete t t) as (λ d. is_yes d ≡ true) [
  | yes p ↦ refl
  | no p ↦ absurd (p refl)
]

pub Result-cases {ℓ} :
    {A : Type ℓ} (r : Result A) → ((a : A) × (r ≡ ok a)) ⊎ ((e : GoError) × (r ≡ err e))
Result-cases (ok a) = inl (a, refl)
Result-cases (err e) = inr (e, refl)
