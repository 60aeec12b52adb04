-- ===== src/Web/Views.antt =====
-- The pages of internal/web/viewmodels.go. Go's printing of numbers, of values and of times, and
-- encoding/json, are parameters.
pub mod Order
pub mod Laws
use toyotaview.Common.{
  ℕ, ℤ, Bool, ◌||◌, Option, none, some, List, [], ◌∷◌, ◌++◌, map, Str, str, str_eq, str_lt,
  is_empty, Map, lookup, keys, GoError, Result, ok, err, Time, is_zero_time, if◌then◌else◌,
}
use toyotaview.Common.Text.{trim_space}
use toyotaview.Smartcar.Models.{
  AnyValue, nil_value, text, boolean, integer, float, texts, items, object, SignalState, state_ok,
  unsupported, unavailable, state_error, SignalSnapshot, VehicleSnapshot,
}

pub record Printer : Type 0 where
  pub error_text : GoError → Str
  pub int_text : ℤ → Str
  -- `%v` of a number.
  pub float_text : ℕ → Str
  pub rfc3339 : Time → Str
  -- json.MarshalIndent with two spaces, and `%v` where it fails.
  pub marshal_indent : AnyValue → Result Str
  pub default_text : AnyValue → Str
  -- json.Indent with two spaces.
  pub indent : Str → Result Str

pub record SignalView : Type 0 where
  pub code : Str
  pub name : Str
  pub group : Str
  pub state : Str
  pub status : Str
  pub unit : Str
  pub value : Str
  pub updated_at : Str
  pub ingested_at : Str
  pub error : Str
  pub body : Str

pub record VehiclePage : Type 0 where
  pub title : Str
  pub error : Str
  pub vehicle_id : Str
  pub make : Str
  pub model : Str
  pub year : ℤ
  pub powertrain : Str
  pub mode : Str
  pub refreshed_at : Str
  pub partial : Bool
  pub signals : List SignalView

pub record DashboardPage : Type 0 where
  pub title : Str
  pub error : Str
  pub vehicles : List VehiclePage
  pub generated_at : Str

pub record ErrorPage : Type 0 where
  pub title : Str
  pub status : ℕ
  pub message : Str

pub record AuthPage : Type 0 where
  pub title : Str
  pub error : Str
  pub username : Str

unfoldable pub insert_code : Str → List Str → List Str
insert_code code [] = code ∷ []
insert_code code (c ∷ codes) =
    let rest = insert_code code codes in if str_lt c code then c ∷ rest else code ∷ c ∷ codes

-- sort.Strings, which on distinct keys has one result.
unfoldable pub sort_strings : List Str → List Str
sort_strings [] = []
sort_strings (c ∷ codes) = insert_code c (sort_strings codes)

unfoldable pub sorted_signal_codes : Map SignalSnapshot → List Str
sorted_signal_codes signals = sort_strings (keys signals)

unfoldable pub state_text : SignalState → Str
state_text state_ok = str "ok"
state_text unsupported = str "unsupported"
state_text unavailable = str "unavailable"
state_text state_error = str "error"

unfoldable pub err_or_snapshot : Option GoError → Option GoError → Option GoError
err_or_snapshot (some e) fallback = some e
err_or_snapshot none fallback = fallback

unfoldable pub with_unit : Str → Str → Str
with_unit value unit = if is_empty unit then value else value ++ (b' ' ∷ unit)

module _ (printer : Printer) where
  unfoldable pub user_message : Option GoError → Str
  user_message none = []
  user_message (some e) = printer.error_text e

  unfoldable pub format_time : Time → Str
  format_time value = if is_zero_time value then [] else printer.rfc3339 value

  unfoldable pub pretty_any : AnyValue → Str
  pretty_any value = elim (printer.marshal_indent value) [
    | ok payload ↦ payload
    | err e ↦ printer.default_text value
  ]

  unfoldable pub pretty_body : Str → Str
  pretty_body body =
      if is_empty body then [] else elim (printer.indent body) [ ok s ↦ s | err e ↦ body ]

  unfoldable pub show_value : AnyValue → Str → Str
  show_value nil_value unit = []
  show_value (text value) unit = with_unit value unit
  show_value (boolean value) unit = if value then str "true" else str "false"
  show_value (integer value) unit = with_unit (printer.int_text value) unit
  show_value (float value) unit = with_unit (printer.float_text value) unit
  show_value (texts values) unit = pretty_any (texts values)
  show_value (items values) unit = pretty_any (items values)
  show_value (object fields) unit = pretty_any (object fields)

  unfoldable pub display_value : SignalSnapshot → Str
  display_value s = show_value s.signal.value s.signal.unit

  unfoldable pub signal_view : Str → SignalSnapshot → SignalView
  signal_view code s = record {
    code = code;
    name = s.signal.name;
    group = s.signal.group;
    state = state_text s.state;
    status = s.signal.status;
    unit = s.signal.unit;
    value = display_value s;
    updated_at = format_time s.signal.oem_updated_at;
    ingested_at = format_time s.signal.ingested_at;
    error = user_message s.error;
    body = pretty_body s.signal.body;
  }

  -- The loop of vehiclePage. A code of the map is always found.
  unfoldable pub signal_views : Map SignalSnapshot → List Str → List SignalView
  signal_views signals [] = []
  signal_views signals (code ∷ codes) = elim (lookup code signals) [
    | some s ↦ signal_view code s ∷ signal_views signals codes
    | none ↦ signal_views signals codes
  ]

  unfoldable pub vehicle_title : VehicleSnapshot → Str
  vehicle_title s =
      let title : Str = trim_space (
        printer.int_text s.vehicle.year ++ (b' ' ∷ (s.vehicle.make ++ (b' ' ∷ s.vehicle.model)))) in
      if str_eq title (str "0") || is_empty title then s.vehicle.id else title

  unfoldable pub vehicle_page : VehicleSnapshot → Option GoError → VehiclePage
  vehicle_page s e = record {
    title = vehicle_title s;
    error = user_message (err_or_snapshot e s.error);
    vehicle_id = s.vehicle.id;
    make = s.vehicle.make;
    model = s.vehicle.model;
    year = s.vehicle.year;
    powertrain = s.vehicle.powertrain_type;
    mode = s.vehicle.mode;
    refreshed_at = format_time s.refreshed_at;
    partial = s.partial;
    signals = signal_views s.signals (sorted_signal_codes s.signals);
  }

  unfoldable pub dashboard_page : Time → List VehicleSnapshot → Option GoError → DashboardPage
  dashboard_page now snapshots e = record {
    title = str "Toyota Vehicle Dashboard";
    error = user_message e;
    vehicles = map (λ s. vehicle_page s none) snapshots;
    generated_at = printer.rfc3339 now;
  }
