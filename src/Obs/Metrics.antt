-- ===== src/Obs/Metrics.antt =====
-- The counters and the histograms of internal/obs/metrics.go, as the list of what is added to them.
use toyotaview.Common.{ℕ, leb, List, [], ◌∷◌, ◌++◌, Str, String, is_empty, Duration, if◌then◌else◌}

abbrev pub Attributes : Type 0
Attributes = List (String × Str)

pub data Instrument : Type 0 where
  http_requests http_errors smartcar_requests smartcar_errors refresh_total token_requests :
      Instrument
  http_duration smartcar_duration refresh_duration : Instrument

-- An addition of one to a counter, and a duration of a histogram.
pub data Point : Type 0 where
  added : Instrument → Attributes → Point
  measured : Instrument → Duration → Attributes → Point

-- The points that were recorded, and the count that the gauge of the cached vehicles shows.
pub record Metrics : Type 0 where
  pub points : List Point
  pub cached_count : ℕ

unfoldable pub set_cached_vehicles : ℕ → Metrics → Metrics
set_cached_vehicles count m = record m { cached_count = count }

unfoldable pub add_points : List Point → Metrics → Metrics
add_points points m = record m { points = m.points ++ points }

-- `int_text` is the decimal text of a number.
unfoldable pub record_http : (ℕ → Str) → Str → Str → ℕ → Duration → Metrics → Metrics
unfolding add_points
record_http int_text method route status duration m =
    let attrs : Attributes =
      ("method", method) ∷ ("route", route) ∷ ("status", int_text status) ∷ [] in
    let counted : Metrics =
      add_points (added http_requests attrs ∷ measured http_duration duration attrs ∷ []) m in
    if leb 500 status then add_points (added http_errors attrs ∷ []) counted else counted

unfoldable pub record_smartcar : Str → Str → Duration → Str → Metrics → Metrics
unfolding add_points
record_smartcar operation status duration error_type m =
    let attrs : Attributes = ("operation", operation) ∷ ("status", status) ∷ [] in
    let counted : Metrics =
      add_points (added smartcar_requests attrs ∷ measured smartcar_duration duration attrs ∷ [])
        m in
    if is_empty error_type
    then counted
    else add_points (added smartcar_errors (attrs ++ ("error_type", error_type) ∷ []) ∷ []) counted

unfoldable pub record_refresh : Str → Str → Duration → Metrics → Metrics
unfolding add_points
record_refresh scope result duration m =
    let attrs : Attributes = ("scope", scope) ∷ ("result", result) ∷ [] in
    add_points (added refresh_total attrs ∷ measured refresh_duration duration attrs ∷ []) m

unfoldable pub record_token : Str → Metrics → Metrics
unfolding add_points
record_token result m = add_points (added token_requests (("result", result) ∷ []) ∷ []) m
