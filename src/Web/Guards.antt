-- ===== src/Web/Guards.antt =====
-- RequireSameOrigin and RequireLogin of internal/web/middleware.go, for any handler behind them.
pub mod Laws
use toyotaview.Common.{
  GoError, Bool, true, false, not, ◌&&◌, Option, none, some, Str, str, String, str_eq, is_empty,
  Result, ok, err, if◌then◌else◌,
}
use toyotaview.Common.Text.{trim_space}
use toyotaview.Smartcar.Http.{Url}
use toyotaview.Auth.Types.{Session}

-- The parts of an `http.Request` that the program reads: `header s` and `form_value s` are empty
-- where they are absent, `parse_error` is what ParseForm returns, and `vehicle_id` is the path value.
pub record Request : Type 0 where
  pub method : Str
  pub host : Str
  pub header : String → Str
  pub session_cookie : Option Str
  pub tls : Bool
  pub vehicle_id : Str
  pub parse_error : Option GoError
  pub form_value : String → Str

-- What is sent back: an answer of the handler, an error, or a redirect to the login page, with the
-- session cookie cleared or not.
pub data Answer (A : Type 0) : Type 0 where
  served : A → Answer A
  forbidden : String → Answer A
  to_login : Bool → Answer A

module _ (parse_url : Str → Result Url) where
  unfoldable pub same_origin : Request → Str → Bool
  same_origin r candidate =
      if is_empty (trim_space candidate)
      then true
      else elim (parse_url candidate) [ err e ↦ false | ok u ↦ str_eq u.host r.host ]

  module _ {W A : Type 0} (next : Request → W → Answer A × W) where
    unfoldable pub require_same_origin : Request → W → Answer A × W
    require_same_origin r w =
        let referer = r.header "Referer" in
        if not (str_eq r.method (str "POST"))
        then next r w
        else if not (same_origin r (r.header "Origin"))
        then (forbidden "origin mismatch", w)
        else if not (is_empty referer) && not (same_origin r referer)
        then (forbidden "referer mismatch", w)
        else next r w

module _ {W A : Type 0} (authenticate_token : Str → W → Result Session × W)
    (next : Request → W → Answer A × W) where
  unfoldable pub after_authenticate : Request → Result Session × W → Answer A × W
  after_authenticate r (err e, w) = (to_login true, w)
  after_authenticate r (ok session, w) = next r w

  unfoldable pub with_cookie : Request → Option Str → W → Answer A × W
  with_cookie r none w = (to_login false, w)
  with_cookie r (some value) w =
      if is_empty (trim_space value)
      then (to_login false, w)
      else after_authenticate r (authenticate_token value w)

  unfoldable pub require_login : Request → W → Answer A × W
  require_login r w = with_cookie r r.session_cookie w
