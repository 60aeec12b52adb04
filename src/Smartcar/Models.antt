-- ===== src/Smartcar/Models.antt =====
-- internal/smartcar/models.go: vehicles, signals, snapshots and connections.
use toyotaview.Common.{
  ℕ, Bool, Option, none, List, [], Str, Map, Time, zero_time, ℤ, pos, GoError, false,
}

-- The states of a signal.
pub data SignalState : Type 0 where
  state_ok unsupported unavailable state_error : SignalState

-- A value of type `any` that the program stores: what JSON decodes to, and what the mocked
-- backend builds. A float64 is kept as its 64 bits.
mutual
  pub data AnyValue : Type 0 where
    nil_value : AnyValue
    text : Str → AnyValue
    boolean : Bool → AnyValue
    integer : ℤ → AnyValue
    float : ℕ → AnyValue
    texts : List Str → AnyValue
    items : AnyItems → AnyValue
    object : AnyFields → AnyValue

  pub data AnyItems : Type 0 where
    no_items : AnyItems
    item : AnyValue → AnyItems → AnyItems

  pub data AnyFields : Type 0 where
    no_fields : AnyFields
    field : Str → AnyValue → AnyFields → AnyFields

pub record Vehicle : Type 0 where
  pub id : Str
  pub make : Str
  pub model : Str
  pub year : ℤ
  pub powertrain_type : Str
  pub mode : Str

pub record Signal : Type 0 where
  pub code : Str
  pub name : Str
  pub group : Str
  pub status : Str
  pub unit : Str
  pub value : AnyValue
  pub body : Str
  pub retrieved_at : Time
  pub oem_updated_at : Time
  pub ingested_at : Time

pub record SignalSnapshot : Type 0 where
  pub signal : Signal
  pub error : Option GoError
  pub state : SignalState

pub record VehicleSnapshot : Type 0 where
  pub vehicle : Vehicle
  pub signals : Map SignalSnapshot
  pub refreshed_at : Time
  pub partial : Bool
  pub error : Option GoError

pub record Connection : Type 0 where
  pub id : Str
  pub vehicle_id : Str
  pub user_id : Str
  pub permissions : List Str
  pub vehicle : Vehicle
  pub created_at : Time
  pub updated_at : Time
  pub last_used_at : Time

-- The zero values of the types.
abbrev pub zero_vehicle : Vehicle
zero_vehicle = record {
  id = [];
  make = [];
  model = [];
  year = pos 0;
  powertrain_type = [];
  mode = [];
}

abbrev pub zero_signal : Signal
zero_signal = record {
  code = [];
  name = [];
  group = [];
  status = [];
  unit = [];
  value = nil_value;
  body = [];
  retrieved_at = zero_time;
  oem_updated_at = zero_time;
  ingested_at = zero_time;
}

abbrev pub zero_snapshot : VehicleSnapshot
zero_snapshot = record {
  vehicle = zero_vehicle;
  signals = [];
  refreshed_at = zero_time;
  partial = false;
  error = none;
}
