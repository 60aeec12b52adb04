-- ===== src/Dev/Fixtures.antt =====
-- The vehicles, the connections and the telemetry that internal/devsmartcar/devsmartcar.go makes up.
use toyotaview.Common.{
  ℕ, ℤ, pos, Bool, false, Option, none, some, List, [], ◌∷◌, map, Str, str, str_eq, is_empty, Map,
  Time, if◌then◌else◌,
}
use toyotaview.Common.Text.{trim_space}
use toyotaview.Smartcar.Models.{Vehicle, Connection}

abbrev pub dev_4runner : Vehicle
dev_4runner = record {
  id = str "dev-4runner";
  make = str "Toyota";
  model = str "4Runner";
  year = pos 2_024;
  powertrain_type = str "ice";
  mode = str "off";
}

abbrev pub dev_tacoma : Vehicle
dev_tacoma = record {
  id = str "dev-tacoma";
  make = str "Toyota";
  model = str "Tacoma";
  year = pos 2_025;
  powertrain_type = str "hybrid";
  mode = str "on";
}

-- 2025-01-10 14:30, 2026-06-15 10:45 and 2026-06-16 12:00 in UTC.
abbrev pub created_at : Time
created_at = pos 63_872_116_200_000_000_000

abbrev pub updated_at : Time
updated_at = pos 63_917_117_100_000_000_000

abbrev pub last_used_at : Time
last_used_at = pos 63_917_208_000_000_000_000

unfoldable pub built_in_connection : Str → List Str → Str → Vehicle → Connection
built_in_connection id permissions user_id vehicle = record {
  id = id;
  vehicle_id = vehicle.id;
  user_id = user_id;
  permissions = permissions;
  vehicle = vehicle;
  created_at = created_at;
  updated_at = updated_at;
  last_used_at = last_used_at;
}

unfoldable pub built_in_connections : Str → List Connection
unfolding built_in_connection
built_in_connections given =
    let user_id : Str = if is_empty (trim_space given) then str "dev-user" else given in
    built_in_connection (str "dev-connection-4runner")
      (str "read_vehicle_info" ∷ str "read_odometer" ∷ str "read_vin" ∷ []) user_id dev_4runner
    ∷ built_in_connection (str "dev-connection-tacoma")
        (str "read_vehicle_info" ∷ str "read_odometer" ∷ str "read_engine_oil" ∷ []) user_id
        dev_tacoma
    ∷ []

unfoldable pub built_in_vehicle : Str → Option Vehicle
built_in_vehicle vehicle_id =
    if str_eq vehicle_id (str "dev-4runner")
    then some dev_4runner
    else if str_eq vehicle_id (str "dev-tacoma")
    then some dev_tacoma
    else none

unfoldable pub clone_connection : Connection → Connection
clone_connection c = record {
  id = c.id;
  vehicle_id = c.vehicle_id;
  user_id = c.user_id;
  permissions = c.permissions;
  vehicle = c.vehicle;
  created_at = c.created_at;
  updated_at = c.updated_at;
  last_used_at = c.last_used_at;
}

unfoldable pub clone_connections : List Connection → List Connection
unfolding clone_connection
clone_connections connections = map clone_connection connections

-- A float64 is its 64 bits.
pub record VehicleTelemetry : Type 0 where
  pub odometer_miles : ℕ
  pub fuel_level_percent : ℕ
  pub fuel_gallons : ℕ
  pub range_miles : ℕ
  pub oil_life_percent : ℤ
  pub dtc_count : ℤ
  pub dtc_list : List Str
  pub malfunction_indicator_on : Bool
  pub brake_fluid_status : Str
  pub oil_pressure_psi : ℕ
  pub oil_temperature_f : ℕ
  pub tire_pressure_psi : Map ℕ
  pub in_service : Bool
  pub last_service_date : Str
  pub last_rotation_date : Str

-- 18902.4, 74, 14.8, 362.5, 44.8, 196.2 and the tires 34.1, 34.4, 33.7, 33.8.
abbrev tacoma_telemetry : VehicleTelemetry
tacoma_telemetry = record {
  odometer_miles = 0x40D2_7599_9999_999A;
  fuel_level_percent = 0x4052_8000_0000_0000;
  fuel_gallons = 0x402D_9999_9999_999A;
  range_miles = 0x4076_A800_0000_0000;
  oil_life_percent = pos 91;
  dtc_count = pos 0;
  dtc_list = [];
  malfunction_indicator_on = false;
  brake_fluid_status = str "normal";
  oil_pressure_psi = 0x4046_6666_6666_6666;
  oil_temperature_f = 0x4068_8666_6666_6666;
  tire_pressure_psi =
      (str "frontLeft", 0x4041_0CCC_CCCC_CCCD)
      ∷ (str "frontRight", 0x4041_3333_3333_3333)
      ∷ (str "rearLeft", 0x4040_D999_9999_999A)
      ∷ (str "rearRight", 0x4040_E666_6666_6666)
      ∷ [];
  in_service = false;
  last_service_date = str "2026-04-18";
  last_rotation_date = str "2026-04-18";
}

-- 48215.7, 58, 11.9, 287.6, 42.3, 201.4 and the tires 32.6, 32.8, 33.1, 33.
abbrev default_telemetry : VehicleTelemetry
default_telemetry = record {
  odometer_miles = 0x40E7_8AF6_6666_6666;
  fuel_level_percent = 0x404D_0000_0000_0000;
  fuel_gallons = 0x4027_CCCC_CCCC_CCCD;
  range_miles = 0x4071_F999_9999_999A;
  oil_life_percent = pos 83;
  dtc_count = pos 0;
  dtc_list = [];
  malfunction_indicator_on = false;
  brake_fluid_status = str "normal";
  oil_pressure_psi = 0x4045_2666_6666_6666;
  oil_temperature_f = 0x4069_2CCC_CCCC_CCCD;
  tire_pressure_psi =
      (str "frontLeft", 0x4040_4CCC_CCCC_CCCD)
      ∷ (str "frontRight", 0x4040_6666_6666_6666)
      ∷ (str "rearLeft", 0x4040_8CCC_CCCC_CCCD)
      ∷ (str "rearRight", 0x4040_8000_0000_0000)
      ∷ [];
  in_service = false;
  last_service_date = str "2026-03-22";
  last_rotation_date = str "2026-03-22";
}

unfoldable pub vehicle_profile : Str → VehicleTelemetry
vehicle_profile vehicle_id =
    if str_eq vehicle_id (str "dev-tacoma") then tacoma_telemetry else default_telemetry
