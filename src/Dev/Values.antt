-- ===== src/Dev/Values.antt =====
-- The values of the mocked signals: signalValue, newSignal and their helpers in
-- internal/devsmartcar/devsmartcar.go. The arithmetic of float64 and json.Marshal are parameters.
use toyotaview.Common.{
  ℕ, ℤ, negsuc, true, Option, none, some, [], ◌∷◌, ◌++◌, map, Str, str, str_eq, is_empty, Map,
  lookup, Result, ok, err, Time, add_time, if◌then◌else◌,
}
use toyotaview.Common.Text.{split, first_part, join, to_upper_one}
use toyotaview.Smartcar.Models.{
  AnyValue, text, boolean, integer, float, texts, items, object, no_items, item, AnyFields,
  no_fields, field, Signal,
}
use toyotaview.Dev.Fixtures.{VehicleTelemetry, vehicle_profile}

-- The operations of float64 on its 64 bits, and its conversions to and from int.
pub record Float64 : Type 0 where
  pub add : ℕ → ℕ → ℕ
  pub sub : ℕ → ℕ → ℕ
  pub mul : ℕ → ℕ → ℕ
  pub div : ℕ → ℕ → ℕ
  pub to_int : ℕ → ℤ
  pub of_int : ℤ → ℕ

pub record Library : Type 0 where
  pub floats : Float64
  pub marshal : AnyValue → Result Str

-- 0.5, 5, 9, 10, 32 and the factors 1.60934, 3.78541, 6.89476.
abbrev pub half : ℕ
half = 0x3FE0_0000_0000_0000

abbrev pub five : ℕ
five = 0x4014_0000_0000_0000

abbrev pub nine : ℕ
nine = 0x4022_0000_0000_0000

abbrev pub ten : ℕ
ten = 0x4024_0000_0000_0000

abbrev pub thirty_two : ℕ
thirty_two = 0x4040_0000_0000_0000

abbrev pub km_per_mile : ℕ
km_per_mile = 0x3FF9_BFDB_4CC2_5072

abbrev pub liters_per_gallon : ℕ
liters_per_gallon = 0x400E_4885_09BF_9C63

abbrev pub kpa_per_psi : ℕ
kpa_per_psi = 0x401B_943B_F727_136A

-- A member of a map of float64, 0 where it is missing.
unfoldable pub float_at : Str → Map ℕ → ℕ
float_at key m = elim (lookup key m) [ some x ↦ x | none ↦ 0 ]

unfoldable pub service_record : Str → Str → AnyFields
service_record kind performed = field (str "type") (text kind) (
    field (str "performed") (text performed)
      (field (str "dealer") (text (str "Mock Toyota Service")) no_fields))

-- titleWord, signalName and signalGroup of this package.
unfoldable pub dev_title_word : Str → Str
dev_title_word [] = []
dev_title_word (c ∷ s) = to_upper_one c ++ s

unfoldable pub signal_name : Str → Str
unfolding dev_title_word
signal_name code = join b' ' (map dev_title_word (split b'-' code))

unfoldable pub signal_group : Str → Str
unfolding dev_title_word
signal_group code =
    let first = first_part b'-' code in
    if is_empty first then str "Signal" else dev_title_word first

module _ (lib : Library) where
  unfoldable pub round1 : ℕ → ℕ
  round1 value =
      let f : Float64 = lib.floats in f.div (f.of_int (f.to_int (f.add (f.mul value ten) half))) ten

  -- A number, converted by a factor in the metric system.
  unfoldable pub measured : Str → ℕ → ℕ → Str → Str → AnyValue × Str
  unfolding round1
  measured unit_system value factor metric imperial =
      if str_eq unit_system (str "metric")
      then (float (round1 (lib.floats.mul value factor)), metric)
      else (float (round1 value), imperial)

  unfoldable pub celsius : ℕ → ℕ
  celsius value = let f : Float64 = lib.floats in f.div (f.mul (f.sub value thirty_two) five) nine

  -- The four tires, in the order of the keys.
  unfoldable pub tires : (ℕ → ℕ) → Map ℕ → AnyValue
  tires convert psi =
      let tire : Str → AnyValue = λ key. float (convert (float_at key psi)) in
      object (
        field (str "frontLeft") (tire (str "frontLeft")) (
          field (str "frontRight") (tire (str "frontRight")) (
            field (str "rearLeft") (tire (str "rearLeft"))
              (field (str "rearRight") (tire (str "rearRight")) no_fields))))

  unfoldable pub engine_value : VehicleTelemetry → Str → Str → Option (AnyValue × Str)
  unfolding measured
  engine_value profile code system =
      if str_eq code (str "odometer-traveleddistance")
      then some (measured system profile.odometer_miles km_per_mile (str "km") (str "mi"))
      else if str_eq code (str "internalcombustionengine-fuellevel")
      then some (float profile.fuel_level_percent, str "%")
      else if str_eq code (str "internalcombustionengine-amountremaining")
      then some (measured system profile.fuel_gallons liters_per_gallon (str "L") (str "gal"))
      else if str_eq code (str "internalcombustionengine-range")
      then some (measured system profile.range_miles km_per_mile (str "km") (str "mi"))
      else if str_eq code (str "internalcombustionengine-oillife")
      then some (integer profile.oil_life_percent, str "%")
      else none

  unfoldable pub diagnostics_value : VehicleTelemetry → Str → Str → Option (AnyValue × Str)
  unfolding measured round1 celsius tires
  diagnostics_value profile code system =
      if str_eq code (str "diagnostics-dtccount")
      then some (integer profile.dtc_count, [])
      else if str_eq code (str "diagnostics-dtclist")
      then some (texts profile.dtc_list, [])
      else if str_eq code (str "diagnostics-mil")
      then some (boolean profile.malfunction_indicator_on, [])
      else if str_eq code (str "diagnostics-brakefluid")
      then some (text profile.brake_fluid_status, [])
      else if str_eq code (str "diagnostics-oilpressure")
      then some (measured system profile.oil_pressure_psi kpa_per_psi (str "kPa") (str "psi"))
      else if str_eq code (str "diagnostics-oiltemperature")
      then some (
          if str_eq system (str "metric")
          then (float (round1 (celsius profile.oil_temperature_f)), str "C")
          else (float (round1 profile.oil_temperature_f), str "F"))
      else if str_eq code (str "diagnostics-tirepressure")
      then some (
          if str_eq system (str "metric")
          then (
            tires (λ psi. round1 (lib.floats.mul psi kpa_per_psi)) profile.tire_pressure_psi,
            str "kPa",
          )
          else (tires round1 profile.tire_pressure_psi, str "psi"))
      else none

  unfoldable pub service_value : VehicleTelemetry → Str → Option (AnyValue × Str)
  unfolding service_record
  service_value profile code =
      if str_eq code (str "service-isinservice")
      then some (boolean profile.in_service, [])
      else if str_eq code (str "service-records")
      then some (
        items (
            item (object (service_record (str "oil_change") profile.last_service_date)) (
              item (object (service_record (str "tire_rotation") profile.last_rotation_date))
                no_items)),
        [],
      )
      else none

  -- The cases of the switch of signalValue, with `none` for its default.
  unfoldable pub known_value : Str → Str → Str → Option (AnyValue × Str)
  unfolding engine_value diagnostics_value service_value
  known_value vehicle_id code system =
      let profile : VehicleTelemetry = vehicle_profile vehicle_id in
      elim (engine_value profile code system) [
        | some v ↦ some v
        | none ↦ elim (diagnostics_value profile code system) [
          | some v ↦ some v
          | none ↦ service_value profile code
        ]
      ]

  unfoldable pub signal_value : Str → Str → Str → AnyValue × Str
  unfolding known_value
  signal_value vehicle_id code system = elim (known_value vehicle_id code system) [
    | some v ↦ v
    | none ↦ (
      object (
          field (str "mocked") (boolean true) (
            field (str "vehicleID") (text vehicle_id)
              (field (str "signal") (text code) no_fields))),
      [],
    )
  ]

  unfoldable pub marshal_body : AnyFields → Str
  marshal_body payload = elim (lib.marshal (object payload)) [
    | ok body ↦ body
    | err e ↦ str "{\"status\":\"error\",\"value\":\"mock-payload-encoding-failed\"}"
  ]

  -- The members of the payload; a map prints its keys in order.
  unfoldable pub payload_of : AnyValue → Str → AnyFields
  payload_of value unit =
      let unit_field : AnyFields =
        if is_empty unit then no_fields else field (str "unit") (text unit) no_fields in
      field (str "value") value (field (str "status") (text (str "ok")) unit_field)

  unfoldable pub new_signal : Str → Str → Str → Time → Signal
  unfolding signal_value marshal_body payload_of signal_name signal_group
  new_signal vehicle_id signal_code unit_system now =
      let measure = signal_value vehicle_id signal_code unit_system in
      record {
        code = signal_code;
        name = signal_name signal_code;
        group = signal_group signal_code;
        status = str "ok";
        unit = measure.1;
        value = measure.0;
        body = marshal_body (payload_of measure.0 measure.1);
        retrieved_at = add_time now (negsuc 14_999_999_999);
        oem_updated_at = add_time now (negsuc 119_999_999_999);
        ingested_at = now;
      }
