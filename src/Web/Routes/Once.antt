-- ===== src/Web/Routes/Once.antt =====
-- Each handler of internal/web/handlers.go, and each request to the routes, is answered once.
use toyotaview.Common.{
  ℕ, suc, Bool, true, false, Option, none, some, List, [], Str, str, String, GoError, Result, ok,
  err, is_error, invalid_credentials, is_empty, Bool-cases, Option-cases, ◌≡◌, refl, ap, ◌∙◌, inl,
  inr,
}
use toyotaview.Smartcar.Models.{VehicleSnapshot}
use toyotaview.App.Refresh
use toyotaview.Auth.Types.{Session, SessionResult}
use toyotaview.Web.Guards.{Request}
use toyotaview.Web.Response.{Page, Site, Exchange, in_app, set_session_cookie, clear_session_cookie}
use toyotaview.Web.Handlers.{
  signup_error, authenticate, is_valid, is_valid_cookie, has_valid_session, show_form, login_page,
  signup_page, enter, after_login, login_parsed, login_handler, after_signup, signup_parsed,
  signup_handler, log_logout, end_session, logout_handler, finish_dashboard, render_dashboard,
  show_cached, after_refresh_all, refresh_all_handler, show_failed, cached_failed,
  after_refresh_vehicle, refresh_vehicle_handler,
}
use toyotaview.Web.Routes.Answers.{
  part, IsServing, count, count-write_other, count-log, count-in_world, count-in_app,
  count-redirect, count-shown, count-render_error, count-render_login_error,
  count-render_signup_error, render-IsSent,
}

module _ {W : Type 0} (site : Site W) (serving : IsServing site) (r : Request) where
  count-is_valid : (p : Result Session × Exchange W) → count (is_valid site r p).1 ≡ count p.1
  unfolding is_valid
  count-is_valid (ok session, x) = refl
  count-is_valid (err e, x) = refl

  count-is_valid_cookie :
      (cookie : Option Str) (x : Exchange W) → count (is_valid_cookie site r cookie x).1 ≡ count x
  unfolding is_valid_cookie authenticate
  count-is_valid_cookie none x = refl
  count-is_valid_cookie (some value) x =
      count-is_valid (authenticate site r value x) ∙ count-in_world _ x

  count-has_valid_session : (x : Exchange W) → count (has_valid_session site r x).1 ≡ count x
  unfolding has_valid_session
  count-has_valid_session x = count-is_valid_cookie r.session_cookie x

  count-show_form :
      (what : String) (page : Page) (p : Bool × Exchange W)
      → count (show_form site r what page p) ≡ suc (count p.1)
  unfolding show_form
  count-show_form what page (true, x) = count-redirect (str "/") 303 x
  count-show_form what page (false, x) = count-shown site serving what 200 page x

  pub count-login_page : (x : Exchange W) → count (login_page site r x) ≡ suc (count x)
  unfolding login_page
  count-login_page x =
      count-show_form "render login" _ (has_valid_session site r x)
      ∙ ap suc (count-has_valid_session x)

  pub count-signup_page : (x : Exchange W) → count (signup_page site r x) ≡ suc (count x)
  unfolding signup_page
  count-signup_page x =
      count-show_form "render signup" _ (has_valid_session site r x)
      ∙ ap suc (count-has_valid_session x)

  count-set_session_cookie :
      (result : SessionResult) (x : Exchange W)
      → count (set_session_cookie site r result.token result.session.expires_at x) ≡ count x
  unfolding set_session_cookie part
  count-set_session_cookie result x = count-write_other _ x refl

  pub count-clear_session_cookie :
      (x : Exchange W) → count (clear_session_cookie site r x) ≡ count x
  unfolding clear_session_cookie part
  count-clear_session_cookie x = count-write_other _ x refl

  count-enter :
      (result : SessionResult) (x : Exchange W) → count (enter site r result x) ≡ suc (count x)
  unfolding enter
  count-enter result x = count-redirect (str "/") 303 _ ∙ ap suc (count-set_session_cookie result x)

  count-after_login :
      (username : Str) (p : Result SessionResult × Exchange W)
      → count (after_login site r username p) ≡ suc (count p.1)
  unfolding after_login
  count-after_login username (ok result, x) = count-enter result x
  count-after_login username (err e, x) = elim (Bool-cases (is_error invalid_credentials e)) [
    | inl denied ↦ rw denied (count-render_login_error site serving _ _ username x)
    | inr broken ↦
        rw broken (count-render_error site serving _ _ _ ∙ ap suc (count-log "login failed" e x))
  ]

  count-login_parsed :
      (e : Option GoError) (x : Exchange W) → count (login_parsed site r e x) ≡ suc (count x)
  unfolding login_parsed
  count-login_parsed none x = count-after_login _ _ ∙ ap suc (count-in_world _ x)
  count-login_parsed (some e) x = count-render_login_error site serving _ _ [] x

  pub count-login_handler : (x : Exchange W) → count (login_handler site r x) ≡ suc (count x)
  unfolding login_handler
  count-login_handler x = count-login_parsed r.parse_error x

  count-after_signup :
      (username : Str) (p : Result SessionResult × Exchange W)
      → count (after_signup site r username p) ≡ suc (count p.1)
  unfolding after_signup
  count-after_signup username (ok result, x) = count-enter result x
  count-after_signup username (err e, x) = elim (Option-cases (signup_error e)) [
    | inl broken ↦
        rw (after_signup, broken)
          (count-render_error site serving _ _ _ ∙ ap suc (count-log "signup failed" e x))
    | inr (refusal, refused) ↦
        rw (after_signup, refused)
          (count-render_signup_error site serving refusal.0 refusal.1 username x)
  ]

  count-signup_parsed :
      (e : Option GoError) (x : Exchange W) → count (signup_parsed site r e x) ≡ suc (count x)
  unfolding signup_parsed
  count-signup_parsed none x = count-after_signup _ _ ∙ ap suc (count-in_world _ x)
  count-signup_parsed (some e) x = count-render_signup_error site serving _ _ [] x

  pub count-signup_handler : (x : Exchange W) → count (signup_handler site r x) ≡ suc (count x)
  unfolding signup_handler
  count-signup_handler x = count-signup_parsed r.parse_error x

  count-log_logout : (p : Option GoError × Exchange W) → count (log_logout site r p) ≡ count p.1
  unfolding log_logout
  count-log_logout (none, x) = refl
  count-log_logout (some e, x) = count-log "logout failed" e x

  count-end_session :
      (cookie : Option Str) (x : Exchange W) → count (end_session site r cookie x) ≡ count x
  unfolding end_session
  count-end_session none x = refl
  count-end_session (some value) x = count-log_logout _ ∙ count-in_world _ x

  pub count-logout_handler : (x : Exchange W) → count (logout_handler site r x) ≡ suc (count x)
  unfolding logout_handler
  count-logout_handler x =
      count-redirect (str "/login") 303 _
      ∙ ap suc (
          count-clear_session_cookie (end_session site r r.session_cookie x)
          ∙ count-end_session r.session_cookie x)

  count-finish_dashboard :
      (p : Option GoError × Exchange W) → p.0 ≡ none → count (finish_dashboard site r p) ≡ count p.1
  unfolding finish_dashboard
  count-finish_dashboard (none, x) h = refl
  count-finish_dashboard (some e, x) h = absurd (cc h)

  pub count-render_dashboard :
      (code : ℕ) (e : Option GoError) (x : Exchange W)
      → count (render_dashboard site r code e x) ≡ suc (count x)
  unfolding render_dashboard
  count-render_dashboard code e x =
      let sent = render-IsSent site serving code _ x in count-finish_dashboard _ sent.0 ∙ sent.1

  pub count-show_cached :
      (p : VehicleSnapshot × Bool) (x : Exchange W) → count (show_cached site r p x) ≡ suc (count x)
  unfolding show_cached
  count-show_cached (s, true) x = count-shown site serving _ _ _ x
  count-show_cached (s, false) x = count-render_error site serving _ _ x

  count-after_refresh_all :
      (p : (List VehicleSnapshot × Option GoError) × Exchange W)
      → count (after_refresh_all site r p) ≡ suc (count p.1)
  unfolding after_refresh_all
  count-after_refresh_all ((snapshots, none), x) = count-redirect _ _ x
  count-after_refresh_all ((snapshots, some e), x) =
      count-render_dashboard _ _ _ ∙ ap suc (count-log "refresh all failed" e x)

  count-cached_failed :
      (e : GoError) (p : VehicleSnapshot × Bool) (x : Exchange W)
      → count (cached_failed site r e p x) ≡ suc (count x)
  unfolding cached_failed show_failed
  count-cached_failed e (s, true) x = count-shown site serving _ _ _ x
  count-cached_failed e (s, false) x = count-render_error site serving _ _ x

  count-after_refresh_vehicle :
      (p : (VehicleSnapshot × Option GoError) × Exchange W)
      → count (after_refresh_vehicle site r p) ≡ suc (count p.1)
  unfolding after_refresh_vehicle show_failed
  count-after_refresh_vehicle ((s, none), x) = count-redirect _ _ x
  count-after_refresh_vehicle ((s, some e), x) = elim (Bool-cases (is_empty s.vehicle.id)) [
    | inl unknown ↦
        rw (after_refresh_vehicle, unknown)
          (count-cached_failed e _ _ ∙ ap suc (count-log "refresh vehicle failed" e x))
    | inr known ↦
        rw (after_refresh_vehicle, known)
          (count-shown site serving _ _ _ _ ∙ ap suc (count-log "refresh vehicle failed" e x))
  ]

  pub count-refresh_all_handler :
      (x : Exchange W) → count (refresh_all_handler site r x) ≡ suc (count x)
  unfolding refresh_all_handler
  count-refresh_all_handler x =
      let run = Refresh.refresh_all site.api site.now site.service in
      count-after_refresh_all (in_app run x) ∙ ap suc (count-in_app run x)

  pub count-refresh_vehicle_handler :
      (x : Exchange W) → count (refresh_vehicle_handler site r x) ≡ suc (count x)
  unfolding refresh_vehicle_handler
  count-refresh_vehicle_handler x =
      let run = Refresh.refresh_vehicle site.api site.now site.service r.vehicle_id in
      count-after_refresh_vehicle (in_app run x) ∙ ap suc (count-in_app run x)
