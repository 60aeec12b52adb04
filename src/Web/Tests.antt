-- ===== src/Web/Tests.antt =====
-- The guards in front of a handler that counts, the routes and a page, and their theorems there.
use toyotaview.Common.{none, ℕ, suc, [], Str, str, sentinel, invalid_session, str_eq}
use toyotaview.Common.{◌∷◌, lookup, ◌≡◌, refl}
use toyotaview.Common.{Bool-cases, inl, inr, is_empty, is_error, keys, mem}
use toyotaview.Common.Text.{trim_space}
use toyotaview.Smartcar.Models.{
  SignalSnapshot, VehicleSnapshot, state_ok, zero_signal, zero_snapshot,
}
use toyotaview.Auth.Service
use toyotaview.Web.Views.{vehicle_page}
use toyotaview.Web.Views.Order.{Ascending}
use toyotaview.Web.Views.Laws.{codes_of, find_view, expected_view, vehicle_page-signals}
use toyotaview.Web.Response.{in_world}
use toyotaview.Web.Handlers.{authenticate}
use toyotaview.Web.Routes.{post_refresh, security_headers, routes}
use toyotaview.Web.Routes.Closed.{IsAnonymous, Turned, routes-Turned}
use toyotaview.Web.Guards.{Request, Answer, served, require_same_origin}
use toyotaview.Web.Guards.Laws.{Screened, require_same_origin-Screened}
use toyotaview.Web.Demo.{
  demo_parse, demo_request, demo_printer, demo_site, demo_exchange, demo_matched, demo_not_found,
}

abbrev demo_next : Request → ℕ → Answer ℕ × ℕ
demo_next r w = (served w, suc w)

require_same_origin-Screened_example :
    Screened demo_parse demo_next demo_request 0
      (require_same_origin demo_parse demo_next demo_request 0)
require_same_origin-Screened_example =
    require_same_origin-Screened demo_parse demo_next demo_request 0

demo-IsAnonymous :
    IsAnonymous demo_site demo_parse demo_matched demo_not_found demo_request
      (security_headers demo_exchange)
unfolding authenticate in_world security_headers Service.authenticate_token
    Service.after_find_session is_error
demo-IsAnonymous value e = elim (Bool-cases (is_empty (trim_space value))) [
  | inl blank ↦ (sentinel invalid_session, rw blank refl)
  | inr shown ↦ (sentinel invalid_session, rw shown refl)
]

routes-Turned_example :
    Turned demo_site demo_parse demo_matched demo_not_found demo_request
      (security_headers demo_exchange)
      (routes demo_site demo_parse demo_matched demo_not_found demo_request demo_exchange)
routes-Turned_example =
    routes-Turned demo_site demo_parse demo_matched demo_not_found demo_request demo_exchange
      post_refresh refl demo-IsAnonymous

abbrev demo_signal : SignalSnapshot
demo_signal = record { signal = zero_signal; state = state_ok; error = none }

abbrev demo_snapshot : VehicleSnapshot
demo_snapshot = record zero_snapshot {
  signals = (str "range", demo_signal) ∷ (str "oil", demo_signal) ∷ [];
}

vehicle_page-signals_example :
    Ascending (codes_of (vehicle_page demo_printer demo_snapshot none).signals)
    × ((k : Str)
        → find_view k (vehicle_page demo_printer demo_snapshot none).signals
          ≡ expected_view demo_printer k (lookup k demo_snapshot.signals))
unfolding keys mem str_eq
vehicle_page-signals_example =
    vehicle_page-signals demo_printer demo_snapshot none (refl, (refl, tt))
