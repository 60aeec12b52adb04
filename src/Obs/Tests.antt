-- ===== src/Obs/Tests.antt =====
-- The middleware around the routes of a small site.
use toyotaview.Common.{ℕ, Str, str, pos, [], Duration, ◌≡◌, refl}
use toyotaview.Web.Guards.{Request}
use toyotaview.Web.Routes.{routes}
use toyotaview.Web.Routes.Answers.{answers}
use toyotaview.Web.Demo.{
  demo_site, demo_parse, demo_matched, demo_not_found, demo_site-IsServing, demo_not_found-once,
  demo_request, demo_exchange,
}
use toyotaview.Obs.Metrics.{Metrics}
use toyotaview.Obs.Middleware.{observe}
use toyotaview.Obs.Middleware.Laws.{sent_status, observe-routes}

abbrev number_text : ℕ → Str
number_text n = str "303"

abbrev no_pattern : Request → Str
no_pattern r = []

abbrev refresh_path : Request → Str
refresh_path r = str "/refresh"

abbrev one_second : ℕ → ℕ → Duration
one_second before after = pos 1_000_000_000

abbrev no_metrics : Metrics
no_metrics = record { points = []; cached_count = 0 }

observe-routes_example :
    (answers
        (observe number_text no_pattern refresh_path one_second
          (routes demo_site demo_parse demo_matched demo_not_found)
          demo_request
          (demo_exchange, no_metrics)).0.writes
      ≡ 1)
    × ((observe number_text no_pattern refresh_path one_second
          (routes demo_site demo_parse demo_matched demo_not_found)
          demo_request
          (demo_exchange, no_metrics)).2.status_code
        ≡ sent_status
            (observe number_text no_pattern refresh_path one_second
              (routes demo_site demo_parse demo_matched demo_not_found)
              demo_request
              (demo_exchange, no_metrics)).0.writes)
observe-routes_example =
    observe-routes demo_site demo_parse demo_matched demo_not_found demo_site-IsServing
      demo_not_found-once number_text no_pattern refresh_path one_second demo_request demo_exchange
      no_metrics refl
