-- ===== src/Web/Routes.antt =====
-- Handler.Routes of internal/web/routes.go, with SecurityHeaders and redirectToLogin of middleware.go.
pub mod Answers
pub mod Once
pub mod Laws
pub mod Closed
use toyotaview.Common.{Bool, true, Str, str, Result, if◌then◌else◌}
use toyotaview.Smartcar.Http.{Url}
use toyotaview.Web.Guards.{
  Request, Answer, served, forbidden, to_login, require_same_origin, require_login,
}
use toyotaview.Web.Response.{
  Site, Exchange, error_written, header_set, write, redirect, clear_session_cookie,
}
use toyotaview.Web.Handlers.{
  authenticate, login_page, login_handler, signup_page, signup_handler, healthz, readyz,
  version_handler, dashboard_handler, vehicles_alias, vehicle_detail, refresh_all_handler,
  refresh_vehicle_handler, logout_handler,
}

-- The patterns of the outer mux.
pub data PublicRoute : Type 0 where
  get_login : PublicRoute
  post_login : PublicRoute
  get_signup : PublicRoute
  post_signup : PublicRoute
  get_healthz : PublicRoute
  get_readyz : PublicRoute
  get_version : PublicRoute

-- The patterns behind RequireLogin, and `unmatched` where none of them matches.
pub data ProtectedRoute : Type 0 where
  get_root : ProtectedRoute
  get_vehicles : ProtectedRoute
  get_vehicle_page : ProtectedRoute
  post_refresh : ProtectedRoute
  post_vehicle_refresh : ProtectedRoute
  post_logout : ProtectedRoute
  unmatched : ProtectedRoute

pub data Route : Type 0 where
  public : PublicRoute → Route
  protected : ProtectedRoute → Route

module _ {W : Type 0} where
  unfoldable pub security_headers : Exchange W → Exchange W
  security_headers x = write (header_set "X-Frame-Options" "DENY") (
      write (header_set "X-Content-Type-Options" "nosniff") (
        write (header_set "Referrer-Policy" "same-origin") (
          write
            (header_set "Content-Security-Policy"
              "default-src 'self'; style-src 'self' 'unsafe-inline'; img-src 'self' data:; base-uri 'self'; form-action 'self'; frame-ancestors 'none'")
            x)))

  unfoldable pub redirect_to_login : Exchange W → Exchange W
  redirect_to_login x = redirect (str "/login") 303 x

-- `matched` is the choice of the two muxes of net/http, `not_found` their answer where no pattern
-- matches.
module _ {W : Type 0} (site : Site W) (parse_url : Str → Result Url) (matched : Request → Route)
    (not_found : Request → Exchange W → Exchange W) where
  unfoldable pub handle_public : PublicRoute → Request → Exchange W → Exchange W
  handle_public get_login r x = login_page site r x
  handle_public post_login r x = login_handler site r x
  handle_public get_signup r x = signup_page site r x
  handle_public post_signup r x = signup_handler site r x
  handle_public get_healthz r x = healthz site r x
  handle_public get_readyz r x = readyz site r x
  handle_public get_version r x = version_handler site r x

  unfoldable pub handle_protected : ProtectedRoute → Request → Exchange W → Exchange W
  handle_protected get_root r x = dashboard_handler site r x
  handle_protected get_vehicles r x = vehicles_alias site r x
  handle_protected get_vehicle_page r x = vehicle_detail site r x
  handle_protected post_refresh r x = refresh_all_handler site r x
  handle_protected post_vehicle_refresh r x = refresh_vehicle_handler site r x
  handle_protected post_logout r x = logout_handler site r x
  handle_protected unmatched r x = not_found r x

  -- The answer of a handler behind RequireLogin.
  unfoldable pub protect : ProtectedRoute → Request → Exchange W → Answer Bool × Exchange W
  protect p r x = (served true, handle_protected p r x)

  -- The outer mux, once it has chosen.
  unfoldable pub serve : Route → Request → Exchange W → Answer Bool × Exchange W
  unfolding protect
  serve (public p) r x = (served true, handle_public p r x)
  serve (protected p) r x = require_login (authenticate site r) (protect p) r x

  unfoldable pub dispatch : Request → Exchange W → Answer Bool × Exchange W
  unfolding serve
  dispatch r x = serve (matched r) r x

  -- What the guards write where they answer themselves.
  unfoldable pub finish_answer : Request → Answer Bool × Exchange W → Exchange W
  unfolding redirect_to_login
  finish_answer r (served done, x) = x
  finish_answer r (forbidden what, x) = write (error_written (str what) 403) x
  finish_answer r (to_login cleared, x) =
      redirect_to_login (if cleared then clear_session_cookie site r x else x)

  unfoldable pub routes : Request → Exchange W → Exchange W
  unfolding finish_answer dispatch security_headers
  routes r x = finish_answer r (require_same_origin parse_url dispatch r (security_headers x))
