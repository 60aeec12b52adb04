-- ===== src/Obs/Middleware.antt =====
-- Middleware of internal/obs/middleware.go around a handler, with its responseRecorder.
pub mod Laws
use toyotaview.Common.{ℕ, leb, Bool, List, [], ◌∷◌, Str, is_empty, Duration, if◌then◌else◌}
use toyotaview.Web.Guards.{Request}
use toyotaview.Web.Response.{
  Write, header_set, content_type, status, body, json_body, cookie_set, redirected, error_written,
  Exchange,
}
use toyotaview.Obs.Metrics.{Metrics, record_http}

-- The responseRecorder after these calls, from the code that it held: each WriteHeader replaces it,
-- those of http.Redirect and of http.Error too. It starts at 200, so Write does not change it.
unfoldable pub recorded_status : ℕ → List Write → ℕ
recorded_status held [] = held
recorded_status held (status code ∷ writes) = recorded_status code writes
recorded_status held (redirected path code ∷ writes) = recorded_status code writes
recorded_status held (error_written message code ∷ writes) = recorded_status code writes
recorded_status held (header_set name value ∷ writes) = recorded_status held writes
recorded_status held (content_type value ∷ writes) = recorded_status held writes
recorded_status held (body bytes ∷ writes) = recorded_status held writes
recorded_status held (json_body fields ∷ writes) = recorded_status held writes
recorded_status held (cookie_set c ∷ writes) = recorded_status held writes

unfoldable pub route_pattern : Str → Str → Str
route_pattern pattern path = if is_empty pattern then path else pattern

-- The span of a request, once it has ended.
pub record Span : Type 0 where
  pub method : Str
  pub route : Str
  pub status_code : ℕ
  pub failed : Bool

-- `pattern` and `path` are r.Pattern, before the muxes have run, and r.URL.Path; `elapsed` is
-- time.Since, with an observer given. The path is empty where there is no URL, and the exchange
-- starts without writes.
module _ {W : Type 0} (int_text : ℕ → Str) (pattern path : Request → Str)
    (elapsed : W → W → Duration) (next : Request → Exchange W → Exchange W) where
  unfoldable pub observe : Request → Exchange W × Metrics → Exchange W × Metrics × Span
  unfolding recorded_status route_pattern
  observe r (x, m) =
      let route = route_pattern (pattern r) (path r) in
      let done : Exchange W = next r x in
      let code = recorded_status 200 done.writes in
      (
        done,
        record_http int_text r.method route code (elapsed x.app.world done.app.world) m,
        record { method = r.method; route = route; status_code = code; failed = leb 500 code },
      )
