-- ===== src/Web/Refreshed.antt =====
-- What the pages of internal/web/handlers.go show after a refresh.
mod Tests
use toyotaview.Common.{
  ℕ, Bool, true, false, Option, none, some, List, Str, String, is_empty, mem, GoError, Result, ok,
  err, Bool-cases, ◌≡◌, refl, ap₂, ap, ◌∙◌, inl, inr,
}
use toyotaview.Smartcar.Models.{Vehicle, VehicleSnapshot}
use toyotaview.Store.{MemoryStore, set_last_error, get, list}
use toyotaview.Store.Sort.{find_by_id, Ascending}
use toyotaview.Store.Listing.{list-Ascending, find-list}
use toyotaview.Store.Laws.{IsCache, cached, latest}
use toyotaview.App.Refresh.{refresh_all, refresh_vehicle}
use toyotaview.App.Refresh.Laws.{refresh_all-store}
use toyotaview.App.Refresh.Outcome.{refresh_all-IsCache, cached-refresh_all}
use toyotaview.App.Refresh.Vehicle.{get-refresh_vehicle}
use toyotaview.Web.Guards.{Request}
use toyotaview.Web.Views.{vehicle_page, dashboard_page, err_or_snapshot}
use toyotaview.Web.Response.{
  Page, dashboard, vehicle, Site, Exchange, write, log, in_world, in_app, redirect, log_error,
  or_plain, send, render, render_error,
}
use toyotaview.Web.Handlers.{
  finish_dashboard, render_dashboard, dashboard_handler, show_cached, vehicle_detail,
  after_refresh_all, refresh_all_handler, show_failed, cached_failed, after_refresh_vehicle,
  refresh_vehicle_handler,
}

last_error-set_last_error :
    (e : Option GoError) (m : MemoryStore) → (set_last_error e m).last_error ≡ e
unfolding set_last_error
last_error-set_last_error e m = refl

module _ {W : Type 0} (site : Site W) where
  store-send :
      (code : ℕ) (page : Result Str) (x : Exchange W)
      → (send site code page x).1.app.store ≡ x.app.store
  unfolding send in_world write
  store-send code (err e) x = refl
  store-send code (ok bytes) x = refl

  store-render :
      (code : ℕ) (page : Page) (x : Exchange W)
      → (render site code page x).1.app.store ≡ x.app.store
  unfolding render
  store-render code page x = store-send code (site.execute page) x

  store-log_error :
      (what : String) (p : Option GoError × Exchange W)
      → (log_error what p).app.store ≡ p.1.app.store
  unfolding log_error log
  store-log_error what (none, x) = refl
  store-log_error what (some e, x) = refl

  store-or_plain :
      (what : String) (message : Str) (code : ℕ) (p : Option GoError × Exchange W)
      → (or_plain what message code p).app.store ≡ p.1.app.store
  unfolding or_plain log write
  store-or_plain what message code (none, x) = refl
  store-or_plain what message code (some e, x) = refl

  module _ (r : Request) where
    store-finish_dashboard :
        (p : Option GoError × Exchange W) → (finish_dashboard site r p).app.store ≡ p.1.app.store
    unfolding finish_dashboard log write
    store-finish_dashboard (none, x) = refl
    store-finish_dashboard (some e, x) = elim (Bool-cases (site.is_abort_handler e)) [
      | inl aborted ↦ rw aborted refl
      | inr broken ↦ rw broken refl
    ]

    store-after_refresh_all :
        (p : (List VehicleSnapshot × Option GoError) × Exchange W)
        → (after_refresh_all site r p).app.store ≡ p.1.app.store
    unfolding after_refresh_all redirect write log render_dashboard
    store-after_refresh_all ((shots, none), x) = refl
    store-after_refresh_all ((shots, some e), x) = store-finish_dashboard _ ∙ store-render 502 _ _

    store-show_failed :
        (what : String) (s : VehicleSnapshot) (e : GoError) (x : Exchange W)
        → (show_failed site r what s e x).app.store ≡ x.app.store
    unfolding show_failed
    store-show_failed what s e x = store-log_error what _ ∙ store-render 502 _ x

    store-cached_failed :
        (e : GoError) (p : VehicleSnapshot × Bool) (x : Exchange W)
        → (cached_failed site r e p x).app.store ≡ x.app.store
    unfolding cached_failed render_error
    store-cached_failed e (s, true) x = store-show_failed _ s e x
    store-cached_failed e (s, false) x = store-or_plain _ _ _ _ ∙ store-render 502 _ x

    store-after_refresh_vehicle :
        (p : (VehicleSnapshot × Option GoError) × Exchange W)
        → (after_refresh_vehicle site r p).app.store ≡ p.1.app.store
    unfolding after_refresh_vehicle redirect write log
    store-after_refresh_vehicle ((s, none), x) = refl
    store-after_refresh_vehicle ((s, some e), x) = elim (Bool-cases (is_empty s.vehicle.id)) [
      | inl blank ↦ rw blank (store-cached_failed e _ _)
      | inr shown ↦ rw shown (store-show_failed _ s e _)
    ]

    store-refresh_all_handler :
        (x : Exchange W)
        → (refresh_all_handler site r x).app.store
          ≡ (refresh_all site.api site.now site.service x.app).1.store
    unfolding refresh_all_handler in_app
    store-refresh_all_handler x =
        store-after_refresh_all (in_app (refresh_all site.api site.now site.service) x)

    store-refresh_vehicle_handler :
        (x : Exchange W)
        → (refresh_vehicle_handler site r x).app.store
          ≡ (refresh_vehicle site.api site.now site.service r.vehicle_id x.app).1.store
    unfolding refresh_vehicle_handler in_app
    store-refresh_vehicle_handler x =
        store-after_refresh_vehicle
          (in_app (refresh_vehicle site.api site.now site.service r.vehicle_id) x)

    -- Where the vehicle of the path is of the allowlist and the API answers with the vehicle that it
    -- is asked for, the page of the vehicle that is asked for after its refresh, whether that
    -- succeeded or failed, renders with 200 the snapshot that RefreshVehicle returned.
    pub vehicle_detail-refresh :
        (x y : Exchange W)
        → is_empty site.service.allowed_vehicle_ids ≡ false
        → mem r.vehicle_id site.service.allowed_vehicle_ids ≡ true
        → ((v : Vehicle)
            → (site.api.get_vehicle r.vehicle_id x.app.world).0 ≡ ok v
            → v.id ≡ r.vehicle_id)
        → IsCache x.app.store
        → y.app.store ≡ (refresh_vehicle_handler site r x).app.store
        → vehicle_detail site r y
          ≡ log_error "render vehicle detail" (
              render site 200
                (vehicle (
                  vehicle_page site.printer
                    (refresh_vehicle site.api site.now site.service r.vehicle_id x.app).0.0
                    none))
                y)
    unfolding vehicle_detail show_cached
    vehicle_detail-refresh x y closed allowed honest c same =
        let found =
          ap (get r.vehicle_id) (same ∙ store-refresh_vehicle_handler x)
          ∙ get-refresh_vehicle site.api site.now site.service r.vehicle_id x.app closed allowed
              honest c in
        ap (λ p. show_cached site r p y) found

    -- After a RefreshAll that returned no error the dashboard shows no error and one page for each
    -- cached vehicle, in ascending order of the identifiers: the last snapshot that RefreshAll
    -- returned of it, or what the cache held before.
    pub dashboard_handler-refresh_all :
        (x y : Exchange W)
        → IsCache x.app.store
        → (refresh_all site.api site.now site.service x.app).0.1 ≡ none
        → y.app.store ≡ (refresh_all_handler site r x).app.store
        → (shots : List VehicleSnapshot) × Ascending shots
          × ((k : Str)
              → find_by_id k shots
                ≡ latest k
                    (refresh_all site.api site.now site.service x.app).0.0
                    (cached x.app.store k))
          × (dashboard_handler site r y
              ≡ finish_dashboard site r (
                  render site 200
                    (dashboard (dashboard_page site.printer (site.now y.app.world) shots none))
                    y))
    unfolding dashboard_handler render_dashboard err_or_snapshot
    dashboard_handler-refresh_all x y c fine same =
        let out = refresh_all site.api site.now site.service x.app in
        let kept : y.app.store ≡ out.1.store = same ∙ store-refresh_all_handler x in
        let clear : y.app.store.last_error ≡ none =
          ap (λ m. m.last_error) (kept ∙ refresh_all-store site.api site.now site.service x.app)
          ∙ last_error-set_last_error out.0.1 _
          ∙ fine in
        let whole : IsCache out.1.store =
          refresh_all-IsCache site.api site.now site.service x.app c in
        (
          list out.1.store,
          list-Ascending out.1.store whole,
          λ k.
              find-list out.1.store k whole
              ∙ cached-refresh_all site.api site.now site.service x.app k,
          ap₂
              (λ shots e. finish_dashboard site r (
                render site 200
                  (dashboard (dashboard_page site.printer (site.now y.app.world) shots e)) y))
              (ap list kept) clear,
        )
