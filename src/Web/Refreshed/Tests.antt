-- ===== src/Web/Refreshed/Tests.antt =====
-- A refresh over a small API, and the pages after it.
use toyotaview.Common.{
  ℕ, suc, none, List, [], ◌∷◌, Str, str, str_eq, mem, Result, ok, err, zero_time, ◌≡◌, refl, sym,
  ap,
}
use toyotaview.Smartcar.Api.{Api}
use toyotaview.Smartcar.Models.{Vehicle, VehicleSnapshot, Connection, zero_vehicle}
use toyotaview.Store.{new_memory_store}
use toyotaview.Store.Laws.{cached, latest, new_memory_store-IsCache}
use toyotaview.Store.Sort.{find_by_id, Ascending}
use toyotaview.App.Types.{new_service, call, emit, note_error}
use toyotaview.App.Select.{filter_connections, keep_allowed, sort_connections, insert_connection}
use toyotaview.App.Snapshot.{
  refresh_vehicle_snapshot, refresh_found, refresh_signals, record_signal, mark_partial,
}
use toyotaview.App.Refresh.{
  refresh_all, refresh_listed, refresh_selected, refresh_each, finish_all, store_all, is_failed,
  refresh_vehicle,
}
use toyotaview.Web.Guards.{Request}
use toyotaview.Web.Views.{vehicle_page, dashboard_page}
use toyotaview.Web.Response.{Site, Exchange, dashboard, vehicle, log_error, render}
use toyotaview.Web.Handlers.{
  finish_dashboard, dashboard_handler, vehicle_detail, refresh_all_handler, refresh_vehicle_handler,
}
use toyotaview.Web.Demo.{demo_api, demo_smartcar, demo_site, demo_request, demo_exchange}
use toyotaview.Web.Refreshed.{vehicle_detail-refresh, dashboard_handler-refresh_all}

abbrev connection_of : Str → Connection
connection_of k = record {
  id = [];
  vehicle_id = k;
  user_id = [];
  permissions = [];
  vehicle = record zero_vehicle { id = k };
  created_at = zero_time;
  updated_at = zero_time;
  last_used_at = zero_time;
}

-- The vehicle a can be read, its signal cannot.
abbrev up_api : Api ℕ
up_api = record demo_api {
  list_connections = λ user w. (ok (connection_of (str "a") ∷ []), suc w);
  get_vehicle = λ k w. (ok (record zero_vehicle { id = k }), suc w);
}

abbrev up_site : Site ℕ
up_site = record demo_site {
  api = up_api;
  service = new_service (record demo_smartcar { vehicle_ids = str "a" ∷ [] });
}

abbrev of_a : Request
of_a = record demo_request { vehicle_id = str "a" }

abbrev id_or : Result Vehicle → Str
id_or (ok v) = v.id
id_or (err e) = []

abbrev after_vehicle : Exchange ℕ
after_vehicle = record demo_exchange {
  app = (refresh_vehicle_handler up_site of_a demo_exchange).app;
}

vehicle_detail-refresh_example :
    vehicle_detail up_site of_a after_vehicle
    ≡ log_error "render vehicle detail" (
        render up_site 200
          (vehicle (
            vehicle_page up_site.printer
              (refresh_vehicle up_site.api up_site.now up_site.service
                (str "a")
                demo_exchange.app).0.0
              none))
          after_vehicle)
unfolding new_service mem str_eq
vehicle_detail-refresh_example =
    vehicle_detail-refresh up_site of_a demo_exchange after_vehicle refl refl
      (λ v e. sym (ap id_or e)) new_memory_store-IsCache refl

abbrev after_all : Exchange ℕ
after_all = record demo_exchange { app = (refresh_all_handler up_site of_a demo_exchange).app }

all_fine : (refresh_all up_site.api up_site.now up_site.service demo_exchange.app).0.1 ≡ none
unfolding refresh_all refresh_listed refresh_selected refresh_each finish_all store_all is_failed
    refresh_vehicle_snapshot refresh_found refresh_signals record_signal mark_partial
    filter_connections keep_allowed sort_connections insert_connection call emit note_error
    new_service mem str_eq
all_fine = refl

dashboard_handler-refresh_all_example :
    (shots : List VehicleSnapshot) × Ascending shots
    × ((k : Str)
        → find_by_id k shots
          ≡ latest k
              (refresh_all up_site.api up_site.now up_site.service demo_exchange.app).0.0
              (cached new_memory_store k))
    × (dashboard_handler up_site of_a after_all
        ≡ finish_dashboard up_site of_a (
            render up_site 200
              (dashboard
                (dashboard_page up_site.printer (up_site.now after_all.app.world) shots none))
              after_all))
dashboard_handler-refresh_all_example =
    dashboard_handler-refresh_all up_site of_a demo_exchange after_all new_memory_store-IsCache
      all_fine refl
