-- ===== src/Web/Handlers.antt =====
-- The handlers of internal/web/handlers.go over the service and the accounts.
use toyotaview.Common.{
  ℕ, Bool, true, false, not, Option, none, some, List, [], ◌∷◌, ◌++◌, Str, str, String, is_empty,
  GoError, is_error, invalid_credentials, username_taken, invalid_username, invalid_password,
  Result, ok, err, if◌then◌else◌,
}
use toyotaview.Smartcar.Models.{VehicleSnapshot}
use toyotaview.Store.{get, list}
use toyotaview.App.Types.{State}
use toyotaview.App.Refresh
use toyotaview.Auth.Types.{SessionResult, Session}
use toyotaview.Auth.Service
use toyotaview.Web.Guards.{Request}
use toyotaview.Web.Views.{vehicle_page, dashboard_page, user_message, err_or_snapshot}
use toyotaview.Web.Response.{
  Page, dashboard, vehicle, login, signup, Site, Exchange, error_written, write, log, in_world,
  in_app, redirect, write_json, log_error, render, render_error, render_login_error,
  render_signup_error, set_session_cookie, clear_session_cookie,
}

-- signupError: the status and the message, where the error is one of the user's.
unfoldable pub signup_error : GoError → Option (ℕ × Str)
signup_error e =
    if is_error username_taken e
    then some (409, str "That username is unavailable.")
    else if is_error invalid_username e
    then some (400, str "Username is required and must be 100 bytes or fewer.")
    else if is_error invalid_password e
    then some (400, str "Password is required and must be 72 bytes or fewer.")
    else none

module _ {W : Type 0} (site : Site W) (r : Request) where
  -- The accounts, as the handlers call them.
  unfoldable pub authenticate : Str → Exchange W → Result Session × Exchange W
  authenticate token x =
      in_world (Service.authenticate_token site.accounts site.storage site.session_ttl token) x

  unfoldable pub is_valid : Result Session × Exchange W → Bool × Exchange W
  is_valid (ok session, x) = (true, x)
  is_valid (err e, x) = (false, x)

  unfoldable pub is_valid_cookie : Option Str → Exchange W → Bool × Exchange W
  is_valid_cookie none x = (false, x)
  is_valid_cookie (some value) x = is_valid (authenticate value x)

  unfoldable pub has_valid_session : Exchange W → Bool × Exchange W
  has_valid_session x = is_valid_cookie r.session_cookie x

  -- LoginPage and SignupPage once the session is looked up.
  unfoldable pub show_form : String → Page → Bool × Exchange W → Exchange W
  show_form what page (true, x) = redirect (str "/") 303 x
  show_form what page (false, x) = log_error what (render site 200 page x)

  unfoldable pub login_page : Exchange W → Exchange W
  unfolding show_form
  login_page x =
      show_form "render login" (login (record { title = str "Sign in"; error = []; username = [] }))
        (has_valid_session x)

  unfoldable pub signup_page : Exchange W → Exchange W
  unfolding show_form
  signup_page x =
      show_form "render signup"
        (signup (record { title = str "Create account"; error = []; username = [] }))
        (has_valid_session x)

  -- The session cookie and the way home, after a login or a signup.
  unfoldable pub enter : SessionResult → Exchange W → Exchange W
  enter result x =
      redirect (str "/") 303 (set_session_cookie site r result.token result.session.expires_at x)

  unfoldable pub after_login : Str → Result SessionResult × Exchange W → Exchange W
  unfolding enter
  after_login username (ok result, x) = enter result x
  after_login username (err e, x) =
      if is_error invalid_credentials e
      then render_login_error site 401 (str "Invalid username or password.") username x
      else render_error site 500 (str "Unable to sign in right now.") (log "login failed" e x)

  unfoldable pub login_parsed : Option GoError → Exchange W → Exchange W
  login_parsed (some e) x = render_login_error site 400 (str "Unable to read sign-in form.") [] x
  login_parsed none x =
      let username : Str = r.form_value "username" in
      after_login username (
        in_world
          (Service.login site.accounts site.storage site.session_ttl username
            (r.form_value "password"))
          x)

  unfoldable pub login_handler : Exchange W → Exchange W
  unfolding login_parsed
  login_handler x = login_parsed r.parse_error x

  unfoldable pub after_signup : Str → Result SessionResult × Exchange W → Exchange W
  unfolding enter
  after_signup username (ok result, x) = enter result x
  after_signup username (err e, x) = elim (signup_error e) [
    | some (code, message) ↦ render_signup_error site code message username x
    | none ↦
        render_error site 500 (str "Unable to create an account right now.")
          (log "signup failed" e x)
  ]

  unfoldable pub signup_parsed : Option GoError → Exchange W → Exchange W
  signup_parsed (some e) x = render_signup_error site 400 (str "Unable to read signup form.") [] x
  signup_parsed none x =
      let username : Str = r.form_value "username" in
      after_signup username (
        in_world
          (Service.signup site.accounts site.storage site.session_ttl username
            (r.form_value "password"))
          x)

  unfoldable pub signup_handler : Exchange W → Exchange W
  unfolding signup_parsed
  signup_handler x = signup_parsed r.parse_error x

  unfoldable pub log_logout : Option GoError × Exchange W → Exchange W
  log_logout (none, x) = x
  log_logout (some e, x) = log "logout failed" e x

  unfoldable pub end_session : Option Str → Exchange W → Exchange W
  unfolding log_logout
  end_session none x = x
  end_session (some value) x =
      log_logout (in_world (Service.logout site.accounts site.storage site.session_ttl value) x)

  unfoldable pub logout_handler : Exchange W → Exchange W
  logout_handler x =
      redirect (str "/login") 303 (clear_session_cookie site r (end_session r.session_cookie x))

  -- renderDashboard once the page is rendered.
  unfoldable pub finish_dashboard : Option GoError × Exchange W → Exchange W
  finish_dashboard (none, x) = x
  finish_dashboard (some e, x) =
      let logged : Exchange W = log "render dashboard" e x in
      if site.is_abort_handler e
      then logged
      else write (error_written (str "template render failed") 500) logged

  unfoldable pub render_dashboard : ℕ → Option GoError → Exchange W → Exchange W
  unfolding finish_dashboard
  render_dashboard code e x =
      let state : State W = x.app in
      finish_dashboard (
        render site code
          (dashboard (
            dashboard_page site.printer (site.now state.world) (list state.store)
              (err_or_snapshot e state.store.last_error)))
          x)

  unfoldable pub dashboard_handler : Exchange W → Exchange W
  dashboard_handler x = render_dashboard 200 none x

  unfoldable pub vehicles_alias : Exchange W → Exchange W
  vehicles_alias x = redirect (str "/") 301 x

  unfoldable pub show_cached : VehicleSnapshot × Bool → Exchange W → Exchange W
  show_cached (s, true) x =
      log_error "render vehicle detail"
        (render site 200 (vehicle (vehicle_page site.printer s none)) x)
  show_cached (s, false) x = render_error site 404 (str "Vehicle not found in cache") x

  unfoldable pub vehicle_detail : Exchange W → Exchange W
  unfolding show_cached
  vehicle_detail x = show_cached (get r.vehicle_id x.app.store) x

  unfoldable pub after_refresh_all :
      (List VehicleSnapshot × Option GoError) × Exchange W → Exchange W
  after_refresh_all ((snapshots, none), x) = redirect (str "/") 303 x
  after_refresh_all ((snapshots, some e), x) =
      render_dashboard 502 (some e) (log "refresh all failed" e x)

  unfoldable pub refresh_all_handler : Exchange W → Exchange W
  unfolding after_refresh_all
  refresh_all_handler x =
      after_refresh_all (in_app (Refresh.refresh_all site.api site.now site.service) x)

  -- The page of a vehicle whose refresh failed.
  unfoldable pub show_failed : String → VehicleSnapshot → GoError → Exchange W → Exchange W
  show_failed what s e x =
      log_error what (render site 502 (vehicle (vehicle_page site.printer s (some e))) x)

  unfoldable pub cached_failed : GoError → VehicleSnapshot × Bool → Exchange W → Exchange W
  cached_failed e (s, true) x = show_failed "render cached vehicle refresh error" s e x
  cached_failed e (s, false) x = render_error site 502 (user_message site.printer (some e)) x

  unfoldable pub after_refresh_vehicle :
      (VehicleSnapshot × Option GoError) × Exchange W → Exchange W
  unfolding cached_failed show_failed
  after_refresh_vehicle ((s, none), x) =
      redirect (str "/vehicles/" ++ site.path_escape r.vehicle_id) 303 x
  after_refresh_vehicle ((s, some e), x) =
      let logged : Exchange W = log "refresh vehicle failed" e x in
      if not (is_empty s.vehicle.id)
      then show_failed "render vehicle refresh error" s e logged
      else cached_failed e (get r.vehicle_id logged.app.store) logged

  unfoldable pub refresh_vehicle_handler : Exchange W → Exchange W
  unfolding after_refresh_vehicle
  refresh_vehicle_handler x =
      after_refresh_vehicle
        (in_app (Refresh.refresh_vehicle site.api site.now site.service r.vehicle_id) x)

  unfoldable pub healthz : Exchange W → Exchange W
  healthz x = write_json (("status", str "ok") ∷ []) x

  unfoldable pub readyz : Exchange W → Exchange W
  readyz x = write_json (("status", str "ready") ∷ []) x

  unfoldable pub version_handler : Exchange W → Exchange W
  version_handler x =
      write_json
        (("version", site.version.version)
          ∷ ("commit", site.version.commit)
          ∷ ("date", site.version.date)
          ∷ [])
        x
