-- ===== src/Web/Routes/Laws.antt =====
-- What the routes of internal/web/routes.go promise of every request.
use toyotaview.Common.{
  suc, Bool, true, false, Option, none, some, Str, str, Result, ok, err, is_empty, Bool-cases, ◌≡◌,
  refl, ap, ◌∙◌, inl, inr,
}
use toyotaview.Common.Text.{trim_space}
use toyotaview.Smartcar.Http.{Url}
use toyotaview.Auth.Types.{Session}
use toyotaview.Web.Guards.{
  Request, Answer, to_login, require_login, with_cookie, after_authenticate,
}
use toyotaview.Web.Guards.Laws.{require_same_origin-Screened}
use toyotaview.Web.Response.{Site, Exchange, error_written}
use toyotaview.Web.Handlers.{
  authenticate, healthz, readyz, version_handler, dashboard_handler, vehicles_alias, vehicle_detail,
}
use toyotaview.Web.Routes.{
  Route, PublicRoute, ProtectedRoute, public, protected, get_login, post_login, get_signup,
  post_signup, get_healthz, get_readyz, get_version, get_root, get_vehicles, get_vehicle_page,
  post_refresh, post_vehicle_refresh, post_logout, unmatched, security_headers, redirect_to_login,
  handle_public, handle_protected, protect, serve, dispatch, finish_answer, routes,
}
use toyotaview.Web.Routes.Answers.{
  part, IsServing, count, count-write_answer, count-write_other, count-in_world, count-redirect,
  count-write_json,
}
use toyotaview.Web.Routes.Once.{
  count-login_page, count-login_handler, count-signup_page, count-signup_handler,
  count-logout_handler, count-render_dashboard, count-show_cached, count-refresh_all_handler,
  count-refresh_vehicle_handler, count-clear_session_cookie,
}

module _ {W : Type 0} (site : Site W) (parse_url : Str → Result Url) (matched : Request → Route)
    (not_found : Request → Exchange W → Exchange W) (serving : IsServing site)
    (found : (r : Request) (x : Exchange W) → count (not_found r x) ≡ suc (count x)) where
  count-handle_public :
      (p : PublicRoute) (r : Request) (x : Exchange W)
      → count (handle_public site parse_url matched not_found p r x) ≡ suc (count x)
  unfolding handle_public healthz readyz version_handler
  count-handle_public get_login r x = count-login_page site serving r x
  count-handle_public post_login r x = count-login_handler site serving r x
  count-handle_public get_signup r x = count-signup_page site serving r x
  count-handle_public post_signup r x = count-signup_handler site serving r x
  count-handle_public get_healthz r x = count-write_json _ x
  count-handle_public get_readyz r x = count-write_json _ x
  count-handle_public get_version r x = count-write_json _ x

  count-handle_protected :
      (p : ProtectedRoute) (r : Request) (x : Exchange W)
      → count (handle_protected site parse_url matched not_found p r x) ≡ suc (count x)
  unfolding handle_protected dashboard_handler vehicles_alias vehicle_detail
  count-handle_protected get_root r x = count-render_dashboard site serving r 200 none x
  count-handle_protected get_vehicles r x = count-redirect (str "/") 301 x
  count-handle_protected get_vehicle_page r x = count-show_cached site serving r _ x
  count-handle_protected post_refresh r x = count-refresh_all_handler site serving r x
  count-handle_protected post_vehicle_refresh r x = count-refresh_vehicle_handler site serving r x
  count-handle_protected post_logout r x = count-logout_handler site serving r x
  count-handle_protected unmatched r x = found r x

  -- An answer of a guard or of a handler that is sent once.
  abbrev IsOnce : Request → Exchange W → Answer Bool × Exchange W → Type 0
  IsOnce r x out = count (finish_answer site parse_url matched not_found r out) ≡ suc (count x)

  IsOnce-to_login :
      (cleared : Bool) (r : Request) (x : Exchange W) → IsOnce r x (to_login cleared, x)
  unfolding finish_answer redirect_to_login
  IsOnce-to_login true r x =
      count-redirect (str "/login") 303 _ ∙ ap suc (count-clear_session_cookie site serving r x)
  IsOnce-to_login false r x = count-redirect (str "/login") 303 x

  IsOnce-after_authenticate :
      (p : ProtectedRoute) (r : Request) (q : Result Session × Exchange W)
      → IsOnce r q.1 (
          after_authenticate (authenticate site r) (protect site parse_url matched not_found p) r q)
  unfolding after_authenticate protect finish_answer
  IsOnce-after_authenticate p r (ok session, x) = count-handle_protected p r x
  IsOnce-after_authenticate p r (err e, x) = IsOnce-to_login true r x

  IsOnce-with_cookie :
      (p : ProtectedRoute) (r : Request) (cookie : Option Str) (x : Exchange W)
      → IsOnce r x (
          with_cookie (authenticate site r) (protect site parse_url matched not_found p) r cookie x)
  unfolding with_cookie authenticate
  IsOnce-with_cookie p r none x = IsOnce-to_login false r x
  IsOnce-with_cookie p r (some value) x = elim (Bool-cases (is_empty (trim_space value))) [
    | inl blank ↦ rw blank (IsOnce-to_login false r x)
    | inr shown ↦
        rw shown (
          IsOnce-after_authenticate p r (authenticate site r value x) ∙ ap suc (count-in_world _ x))
  ]

  IsOnce-serve :
      (m : Route) (r : Request) (x : Exchange W)
      → IsOnce r x (serve site parse_url matched not_found m r x)
  unfolding serve require_login finish_answer
  IsOnce-serve (public p) r x = count-handle_public p r x
  IsOnce-serve (protected p) r x = IsOnce-with_cookie p r r.session_cookie x

  count-security_headers : (x : Exchange W) → count (security_headers x) ≡ count x
  unfolding security_headers part
  count-security_headers x =
      count-write_other _ _ refl
      ∙ count-write_other _ _ refl
      ∙ count-write_other _ _ refl
      ∙ count-write_other _ x refl

  -- Where the templates execute, the connection takes what is written and net/http answers once
  -- where no pattern matches, every request is answered by exactly one status line.
  pub count-routes :
      (r : Request) (x : Exchange W)
      → count (routes site parse_url matched not_found r x) ≡ suc (count x)
  unfolding routes dispatch finish_answer part
  count-routes r x =
      elim (require_same_origin-Screened parse_url (dispatch site parse_url matched not_found) r
        (security_headers x)) [
          | inl (what, post, foreign, refused) ↦ rw refused (
              count-write_answer (error_written (str what) 403) (security_headers x) refl
              ∙ ap suc (count-security_headers x))
          | inr (passed, local) ↦
              rw passed (
                IsOnce-serve (matched r) r (security_headers x) ∙ ap suc (count-security_headers x))
        ]
