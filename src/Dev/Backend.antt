-- ===== src/Dev/Backend.antt =====
-- The mocked backend of internal/devsmartcar/devsmartcar.go as the interface of the vehicle API.
pub mod Laws
pub mod Refresh
use toyotaview.Common.{
  ℕ, not, ◌&&◌, Option, none, some, List, [], ◌∷◌, ◌++◌, Str, str, String, str_eq, is_empty, Map,
  lookup, mem, GoError, ApiInfo, new_error, formatted, api_error, api_caused, Result, ok, err, Time,
  if◌then◌else◌,
}
use toyotaview.Common.Text.{trim_space, to_lower}
use toyotaview.Smartcar.Models.{Vehicle, Signal, Connection}
use toyotaview.Smartcar.Api.{Api}
use toyotaview.Dev.Outcomes.{
  SignalOutcome, outcome_success, outcome_unsupported, outcome_unavailable, outcome_error,
  build_partial_outcomes,
}
use toyotaview.Dev.Fixtures.{built_in_connections, built_in_vehicle, clone_connections}
use toyotaview.Dev.Values.{Library, new_signal}

pub record BackendConfig : Type 0 where
  pub scenario : Str
  pub signal_codes : List Str
  pub unit_system : Str

pub record Backend : Type 0 where
  pub scenario : Str
  pub partial_outcomes : Map SignalOutcome
  pub unit_system : Str

abbrev pub supported_scenarios : List Str
supported_scenarios = str "happy" ∷ str "partial" ∷ str "empty" ∷ str "failure" ∷ []

unfoldable pub normalize_scenario : (Str → Str) → Str → Str
normalize_scenario lower_unicode value =
    let normal = to_lower lower_unicode (trim_space value) in
    if is_empty normal then str "happy" else normal

unfoldable pub validate_scenario : Str → Option GoError
validate_scenario value =
    if mem value supported_scenarios
    then none
    else some (formatted "invalid dev scenario %q" (value ∷ []))

-- New.
unfoldable pub new_backend : (Str → Str) → BackendConfig → Result Backend
unfolding normalize_scenario validate_scenario
new_backend lower_unicode cfg =
    let scenario = normalize_scenario lower_unicode cfg.scenario in
    let unit_system = trim_space cfg.unit_system in
    elim (validate_scenario scenario) [
      | some e ↦ err e
      | none ↦ ok (record {
        scenario = scenario;
        partial_outcomes = build_partial_outcomes cfg.signal_codes;
        unit_system = if is_empty unit_system then str "imperial" else unit_system;
      })
    ]

unfoldable pub new_api_error : String → Str → ℕ → String → String → Option GoError → GoError
new_api_error operation url status request_id body e =
    let info : ApiInfo = record {
      operation = operation;
      method = "GET";
      url = url;
      status = status;
      request_id = str request_id;
      body = str body;
    } in
    elim e [ none ↦ api_error info | some cause ↦ api_caused info cause ]

abbrev pub vehicle_url : Str → Str
vehicle_url vehicle_id = str "https://mock.smartcar.local/vehicles/" ++ vehicle_id

abbrev pub signal_url : Str → Str → Str
signal_url vehicle_id code = vehicle_url vehicle_id ++ (str "/signals/" ++ code)

-- The switch of GetSignal on the outcome of the code: its error, if it has one.
unfoldable pub outcome_failure : Str → Option SignalOutcome → Option GoError
outcome_failure url (some outcome_unsupported) = some (
    new_api_error "get_signal" url 404 "dev-signal-unsupported"
      "{\"message\":\"signal unsupported by mocked vehicle\"}" none)
outcome_failure url (some outcome_unavailable) = some (
    new_api_error "get_signal" url 430 "dev-signal-unavailable"
      "{\"message\":\"signal temporarily unavailable in mocked vehicle state\"}" none)
outcome_failure url (some outcome_error) = some (
    new_api_error "get_signal" url 500 "dev-signal-error"
      "{\"message\":\"mock Smartcar backend error\"}"
      (some (new_error "mock Smartcar backend error")))
outcome_failure url (some outcome_success) = none
outcome_failure url none = none

-- The error of GetSignal where the context is not done.
unfoldable pub signal_failure : Backend → Str → Str → Option GoError
unfolding outcome_failure
signal_failure a vehicle_id code =
    let url = signal_url vehicle_id code in
    if str_eq a.scenario (str "failure")
    then some (
        new_api_error "get_signal" url 503 "dev-get-signal"
          "{\"message\":\"mock Smartcar signal lookup failed\"}"
          (some (new_error "mock Smartcar signal lookup failed")))
    else elim (built_in_vehicle vehicle_id) [
      | none ↦ some (
          new_api_error "get_signal" url 404 "dev-get-signal-not-found"
            "{\"message\":\"vehicle not found\"}" none)
      | some v ↦
          if str_eq a.scenario (str "empty")
          then some (
              new_api_error "get_signal" url 404 "dev-get-signal-not-found"
                "{\"message\":\"vehicle not found\"}" none)
          else if str_eq a.scenario (str "partial") && str_eq vehicle_id (str "dev-4runner")
          then outcome_failure url (lookup code a.partial_outcomes)
          else none
    ]

module _ {W : Type 0} (lib : Library) (now : W → Time) (context_error : W → Option GoError)
    (a : Backend) where
  unfoldable pub dev_list_connections : Str → W → Result (List Connection) × W
  dev_list_connections user_id w = elim (context_error w) [
    | some e ↦ (err e, w)
    | none ↦
        if str_eq a.scenario (str "empty")
        then (ok [], w)
        else if str_eq a.scenario (str "failure")
        then (
          err (
              new_api_error "list_connections" (str "https://mock.smartcar.local/connections") 502
                "dev-list-connections" "{\"message\":\"mock Smartcar backend unavailable\"}"
                (some (new_error "mock Smartcar backend unavailable"))),
          w,
        )
        else (ok (clone_connections (built_in_connections user_id)), w)
  ]

  -- GetVehicle where the context is not done.
  unfoldable pub find_vehicle : Str → Result Vehicle
  find_vehicle vehicle_id =
      let url = vehicle_url vehicle_id in
      let missing : Result Vehicle = err (
        new_api_error "get_vehicle" url 404 "dev-get-vehicle-not-found"
          "{\"message\":\"vehicle not found\"}" none) in
      if str_eq a.scenario (str "failure")
      then err (
          new_api_error "get_vehicle" url 503 "dev-get-vehicle"
            "{\"message\":\"mock Smartcar vehicle lookup failed\"}"
            (some (new_error "mock Smartcar vehicle lookup failed")))
      else elim (built_in_vehicle vehicle_id) [
        | none ↦ missing
        | some v ↦ if str_eq a.scenario (str "empty") then missing else ok v
      ]

  unfoldable pub dev_get_vehicle : Str → W → Result Vehicle × W
  unfolding find_vehicle
  dev_get_vehicle vehicle_id w = elim (context_error w) [
    | some e ↦ (err e, w)
    | none ↦ (find_vehicle vehicle_id, w)
  ]

  unfoldable pub find_signal : Str → Str → Time → Result Signal
  unfolding signal_failure
  find_signal vehicle_id code at = elim (signal_failure a vehicle_id code) [
    | some e ↦ err e
    | none ↦ ok (new_signal lib vehicle_id code a.unit_system at)
  ]

  unfoldable pub dev_get_signal : Str → Str → Str → W → Result Signal × W
  unfolding find_signal
  dev_get_signal user_id vehicle_id code w = elim (context_error w) [
    | some e ↦ (err e, w)
    | none ↦ (find_signal vehicle_id code (now w), w)
  ]

  unfoldable pub dev_api : Api W
  dev_api = record {
    list_connections = dev_list_connections;
    get_vehicle = dev_get_vehicle;
    get_signal = dev_get_signal;
  }
