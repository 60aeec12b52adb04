-- ===== src/Web/Cookies/Actions.antt =====
-- The cookies that the handlers behind RequireLogin in internal/web/handlers.go send.
use toyotaview.Common.{
  negsuc, Bool, true, false, ℕ, Option, none, some, List, [], ◌∷◌, ◌++◌, Str, str, GoError,
  is_empty, Bool-cases, ◌||◌, ◌≡◌, refl, ap, ◌∙◌, inl, inr,
}
use toyotaview.Smartcar.Models.{VehicleSnapshot}
use toyotaview.App.Refresh
use toyotaview.Web.Guards.{Request}
use toyotaview.Web.Response.{
  Site, Cookie, Exchange, in_app, session_cookie_of, clear_session_cookie,
}
use toyotaview.Web.Handlers.{
  log_logout, end_session, logout_handler, finish_dashboard, render_dashboard, show_cached,
  after_refresh_all, refresh_all_handler, show_failed, cached_failed, after_refresh_vehicle,
  refresh_vehicle_handler,
}
use toyotaview.Web.Cookies.{
  cookies, sent, IsOpen, IsOpen-log, IsOpen-in_world, sent-write_cookie, sent-write_other, sent-log,
  sent-in_world, sent-in_app, sent-redirect, sent-render, sent-shown, sent-render_error,
}

module _ {W : Type 0} (site : Site W) (r : Request) where
  -- The cookie that makes the browser drop the session.
  abbrev pub clearing : Cookie
  clearing = record {
    value = [];
    path = str "/";
    expires = none;
    max_age = negsuc 0;
    http_only = true;
    same_site_lax = true;
    secure = site.secure_cookies || r.tls;
  }

  pub sent-clear_session_cookie :
      (x : Exchange W) → IsOpen x → sent (clear_session_cookie site r x) ≡ sent x ++ clearing ∷ []
  unfolding clear_session_cookie session_cookie_of
  sent-clear_session_cookie x unsent = sent-write_cookie _ x unsent

  sent-log_logout : (p : Option GoError × Exchange W) → sent (log_logout site r p) ≡ sent p.1
  unfolding log_logout
  sent-log_logout (none, x) = refl
  sent-log_logout (some e, x) = sent-log "logout failed" e x

  sent-end_session :
      (cookie : Option Str) (x : Exchange W) → sent (end_session site r cookie x) ≡ sent x
  unfolding end_session
  sent-end_session none x = refl
  sent-end_session (some value) x = sent-log_logout _ ∙ sent-in_world _ x

  IsOpen-log_logout : (p : Option GoError × Exchange W) → IsOpen p.1 → IsOpen (log_logout site r p)
  unfolding log_logout
  IsOpen-log_logout (none, x) unsent = unsent
  IsOpen-log_logout (some e, x) unsent = IsOpen-log "logout failed" e x unsent

  IsOpen-end_session :
      (cookie : Option Str) (x : Exchange W) → IsOpen x → IsOpen (end_session site r cookie x)
  unfolding end_session
  IsOpen-end_session none x unsent = unsent
  IsOpen-end_session (some value) x unsent = IsOpen-log_logout _ (IsOpen-in_world _ x unsent)

  pub sent-logout_handler :
      (x : Exchange W) → IsOpen x → sent (logout_handler site r x) ≡ sent x ++ clearing ∷ []
  unfolding logout_handler
  sent-logout_handler x unsent =
      sent-redirect (str "/login") 303 _
      ∙ sent-clear_session_cookie _ (IsOpen-end_session r.session_cookie x unsent)
      ∙ ap (λ cs. cs ++ clearing ∷ []) (sent-end_session r.session_cookie x)

  sent-finish_dashboard :
      (p : Option GoError × Exchange W) → sent (finish_dashboard site r p) ≡ sent p.1
  unfolding finish_dashboard cookies
  sent-finish_dashboard (none, x) = refl
  sent-finish_dashboard (some e, x) = elim (Bool-cases (site.is_abort_handler e)) [
    | inl aborted ↦ rw aborted (sent-log "render dashboard" e x)
    | inr other ↦ rw other (sent-write_other _ _ refl ∙ sent-log "render dashboard" e x)
  ]

  pub sent-render_dashboard :
      (code : ℕ) (e : Option GoError) (x : Exchange W)
      → sent (render_dashboard site r code e x) ≡ sent x
  unfolding render_dashboard
  sent-render_dashboard code e x = sent-finish_dashboard _ ∙ sent-render site code _ x

  pub sent-show_cached :
      (p : VehicleSnapshot × Bool) (x : Exchange W) → sent (show_cached site r p x) ≡ sent x
  unfolding show_cached
  sent-show_cached (s, true) x = sent-shown site _ _ _ x
  sent-show_cached (s, false) x = sent-render_error site _ _ x

  sent-after_refresh_all :
      (p : (List VehicleSnapshot × Option GoError) × Exchange W)
      → sent (after_refresh_all site r p) ≡ sent p.1
  unfolding after_refresh_all
  sent-after_refresh_all ((snapshots, none), x) = sent-redirect _ _ x
  sent-after_refresh_all ((snapshots, some e), x) =
      sent-render_dashboard _ _ _ ∙ sent-log "refresh all failed" e x

  sent-cached_failed :
      (e : GoError) (p : VehicleSnapshot × Bool) (x : Exchange W)
      → sent (cached_failed site r e p x) ≡ sent x
  unfolding cached_failed show_failed
  sent-cached_failed e (s, true) x = sent-shown site _ _ _ x
  sent-cached_failed e (s, false) x = sent-render_error site _ _ x

  sent-after_refresh_vehicle :
      (p : (VehicleSnapshot × Option GoError) × Exchange W)
      → sent (after_refresh_vehicle site r p) ≡ sent p.1
  unfolding after_refresh_vehicle show_failed
  sent-after_refresh_vehicle ((s, none), x) = sent-redirect _ _ x
  sent-after_refresh_vehicle ((s, some e), x) = elim (Bool-cases (is_empty s.vehicle.id)) [
    | inl unknown ↦
        rw (after_refresh_vehicle, unknown)
          (sent-cached_failed e _ _ ∙ sent-log "refresh vehicle failed" e x)
    | inr known ↦
        rw (after_refresh_vehicle, known)
          (sent-shown site _ _ _ _ ∙ sent-log "refresh vehicle failed" e x)
  ]

  pub sent-refresh_all_handler : (x : Exchange W) → sent (refresh_all_handler site r x) ≡ sent x
  unfolding refresh_all_handler
  sent-refresh_all_handler x =
      let run = Refresh.refresh_all site.api site.now site.service in
      sent-after_refresh_all (in_app run x) ∙ sent-in_app run x

  pub sent-refresh_vehicle_handler :
      (x : Exchange W) → sent (refresh_vehicle_handler site r x) ≡ sent x
  unfolding refresh_vehicle_handler
  sent-refresh_vehicle_handler x =
      let run = Refresh.refresh_vehicle site.api site.now site.service r.vehicle_id in
      sent-after_refresh_vehicle (in_app run x) ∙ sent-in_app run x
