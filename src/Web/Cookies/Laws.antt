-- ===== src/Web/Cookies/Laws.antt =====
-- The cookies that a request to the routes of internal/web/routes.go gets.
use toyotaview.Common.{
  Option, none, some, List, [], ◌∷◌, ◌++◌, Str, str, Result, ok, err, is_empty, Bool, Bool-cases,
  ◌≡◌, refl, sym, ◌∙◌, ◌⊎◌, inl, inr,
}
use mathlib.Core.List.{append-nil}
use toyotaview.Common.Text.{trim_space}
use toyotaview.Smartcar.Http.{Url}
use toyotaview.Auth.Types.{Session, SessionResult}
use toyotaview.Auth.Service
use toyotaview.Web.Guards.{Request, Answer, require_login, with_cookie, after_authenticate}
use toyotaview.Web.Guards.Laws.{IsSameHost, require_same_origin-Screened}
use toyotaview.Web.Response.{Site, Cookie, Exchange, write}
use toyotaview.Web.Handlers.{authenticate}
use toyotaview.Web.Routes.{
  PublicRoute, get_login, post_login, get_signup, post_signup, get_healthz, get_readyz, get_version,
  ProtectedRoute, get_root, get_vehicles, get_vehicle_page, post_refresh, post_vehicle_refresh,
  post_logout, unmatched, Route, public, protected, security_headers, redirect_to_login,
  handle_public, handle_protected, protect, serve, dispatch, finish_answer, routes,
}
use toyotaview.Web.Handlers.{
  healthz, readyz, version_handler, dashboard_handler, vehicles_alias, vehicle_detail,
}
use toyotaview.Web.Cookies.{
  cookies, sent, IsOpen, IsOpen-in_world, IsOpen-security_headers, sent-security_headers,
  sent-write_other, sent-in_world, sent-redirect, sent-write_json,
}
use toyotaview.Web.Cookies.Pages.{
  logged_in, signed_up, opening, sent-login_page, sent-signup_page, sent-login_handler,
  sent-signup_handler,
}
use toyotaview.Web.Cookies.Actions.{
  clearing, sent-logout_handler, sent-clear_session_cookie, sent-render_dashboard, sent-show_cached,
  sent-refresh_all_handler, sent-refresh_vehicle_handler,
}

module _ {W : Type 0} (site : Site W) (parse_url : Str → Result Url) (matched : Request → Route)
    (not_found : Request → Exchange W → Exchange W) where
  -- The session that a public route hands out: Login's on the form of the login page, Signup's on
  -- that of the signup page.
  abbrev pub granted : PublicRoute → Request → W → Option SessionResult
  granted post_login r w = logged_in site r r.parse_error w
  granted post_signup r w = signed_up site r r.parse_error w
  granted get_login r w = none
  granted get_signup r w = none
  granted get_healthz r w = none
  granted get_readyz r w = none
  granted get_version r w = none

  -- The cookies after a request that the guards let through, by the route.
  abbrev pub Tracked : Route → Request → Exchange W → List Cookie → Type 0
  Tracked (public p) r x new = new ≡ sent x ++ opening site r (granted p r x.app.world)
  Tracked (protected p) r x new = (new ≡ sent x) ⊎ (new ≡ sent x ++ clearing site r ∷ [])

  sent-handle_public :
      (p : PublicRoute) (r : Request) (x : Exchange W)
      → IsOpen x
      → Tracked (public p) r x (sent (handle_public site parse_url matched not_found p r x))
  unfolding handle_public healthz readyz version_handler
  sent-handle_public get_login r x unsent = sent-login_page site r x ∙ sym (append-nil (sent x))
  sent-handle_public post_login r x unsent = sent-login_handler site r x unsent
  sent-handle_public get_signup r x unsent = sent-signup_page site r x ∙ sym (append-nil (sent x))
  sent-handle_public post_signup r x unsent = sent-signup_handler site r x unsent
  sent-handle_public get_healthz r x unsent = sent-write_json _ x ∙ sym (append-nil (sent x))
  sent-handle_public get_readyz r x unsent = sent-write_json _ x ∙ sym (append-nil (sent x))
  sent-handle_public get_version r x unsent = sent-write_json _ x ∙ sym (append-nil (sent x))

  module _ (silent : (r : Request) (x : Exchange W) → sent (not_found r x) ≡ sent x) where
    sent-handle_protected :
        (p : ProtectedRoute) (r : Request) (x : Exchange W)
        → IsOpen x
        → Tracked (protected p) r x (sent (handle_protected site parse_url matched not_found p r x))
    unfolding handle_protected dashboard_handler vehicles_alias vehicle_detail
    sent-handle_protected get_root r x unsent = inl (sent-render_dashboard site r _ _ x)
    sent-handle_protected get_vehicles r x unsent = inl (sent-redirect _ _ x)
    sent-handle_protected get_vehicle_page r x unsent = inl (sent-show_cached site r _ x)
    sent-handle_protected post_refresh r x unsent = inl (sent-refresh_all_handler site r x)
    sent-handle_protected post_vehicle_refresh r x unsent =
        inl (sent-refresh_vehicle_handler site r x)
    sent-handle_protected post_logout r x unsent = inr (sent-logout_handler site r x unsent)
    sent-handle_protected unmatched r x unsent = inl (silent r x)

    abbrev IsTracked : Route → Request → Exchange W → Answer Bool × Exchange W → Type 0
    IsTracked m r x out =
        Tracked m r x (sent (finish_answer site parse_url matched not_found r out))

    IsTracked-after_authenticate :
        (p : ProtectedRoute) (r : Request) (q : Result Session × Exchange W)
        → IsOpen q.1
        → IsTracked (protected p) r (q.1) (
            after_authenticate
              (authenticate site r)
              (protect site parse_url matched not_found p)
              r
              q)
    unfolding after_authenticate protect finish_answer redirect_to_login
    IsTracked-after_authenticate p r (err e, x) unsent =
        inr (sent-redirect _ _ _ ∙ sent-clear_session_cookie site r x unsent)
    IsTracked-after_authenticate p r (ok session, x) unsent = sent-handle_protected p r x unsent

    IsTracked-with_cookie :
        (p : ProtectedRoute) (r : Request) (cookie : Option Str) (x : Exchange W)
        → IsOpen x
        → IsTracked (protected p) r x (
            with_cookie
              (authenticate site r)
              (protect site parse_url matched not_found p)
              r
              cookie
              x)
    unfolding with_cookie finish_answer redirect_to_login authenticate
    IsTracked-with_cookie p r none x unsent = inl (sent-redirect _ _ x)
    IsTracked-with_cookie p r (some value) x unsent =
        elim (Bool-cases (is_empty (trim_space value))) [
          | inl blank ↦ rw blank (inl (sent-redirect _ _ x))
          | inr shown ↦
              rw
                (
                  shown,
                  ← sent-in_world
                      (Service.authenticate_token site.accounts site.storage site.session_ttl value)
                      x,
                )
                (IsTracked-after_authenticate p r (authenticate site r value x)
                  (IsOpen-in_world _ x unsent))
        ]

    IsTracked-serve :
        (m : Route) (r : Request) (x : Exchange W)
        → IsOpen x
        → IsTracked m r x (serve site parse_url matched not_found m r x)
    unfolding serve require_login finish_answer
    IsTracked-serve (public p) r x unsent = sent-handle_public p r x unsent
    IsTracked-serve (protected p) r x unsent = IsTracked-with_cookie p r r.session_cookie x unsent

    Tracked-security_headers :
        (m : Route) (r : Request) (x : Exchange W) (new : List Cookie)
        → Tracked m r (security_headers x) new
        → Tracked m r x new
    unfolding security_headers write
    Tracked-security_headers (public p) r x new h = rw (← sent-security_headers x) h
    Tracked-security_headers (protected p) r x new h = rw (← sent-security_headers x) h

    -- A cookie is sent that is set before the status line. Where net/http sends none of its own and no
    -- status line is sent yet, a POST whose Origin or Referer names another host
    -- gets no cookie. Any other request for a public route gets the cookie of the session that Login
    -- or Signup gives for its form, and none where they give none or the route is another; a request
    -- for a protected route gets none, or the one that clears the session.
    pub sent-routes :
        (r : Request) (x : Exchange W)
        → IsOpen x
        → let new = sent (routes site parse_url matched not_found r x) in
          ((r.method ≡ str "POST")
            × (¬ (
                IsSameHost parse_url r (r.header "Origin")
                × IsSameHost parse_url r (r.header "Referer")))
            × (new ≡ sent x))
          ⊎ ((r.method ≡ str "POST"
                → IsSameHost parse_url r (r.header "Origin")
                  × IsSameHost parse_url r (r.header "Referer"))
              × Tracked (matched r) r x new)
    unfolding routes dispatch finish_answer cookies
    sent-routes r x unsent =
        elim (require_same_origin-Screened parse_url (dispatch site parse_url matched not_found) r
          (security_headers x)) [
            | inl (what, post, foreign, refused) ↦
                rw refused
                  (inl (post, foreign, sent-write_other _ _ refl ∙ sent-security_headers x))
            | inr (passed, local) ↦ rw passed (
                inr (
                  local,
                  Tracked-security_headers (matched r) r x _ (
                      IsTracked-serve (matched r) r (security_headers x)
                        (IsOpen-security_headers x unsent)),
                ))
          ]
