-- ===== src/App/Types.antt =====
-- internal/app/app.go: the service, and what it reads and changes.
use toyotaview.Common.{ℕ, Option, List, [], ◌∷◌, ◌++◌, Str, String, GoError}
use toyotaview.Config.Types.{SmartcarConfig}
use toyotaview.Smartcar.Models.{SignalState}
use toyotaview.Store.{MemoryStore, set_last_error}

-- What the service tells the observer and the logger, in order; durations and times are left out.
pub data Event : Type 0 where
  span_failed : String → GoError → Event
  refresh_recorded : String → String → Event
  cached_vehicles_set : ℕ → Event
  vehicle_warned : Str → GoError → Event
  signal_warned : Str → Str → SignalState → GoError → Event

-- What the service reads and changes: the world behind the API, the cache, and the events.
pub record State (W : Type 0) : Type 0 where
  pub world : W
  pub store : MemoryStore
  pub events : List Event

-- NewService keeps the allowlist as a set.
pub record Service : Type 0 where
  pub cfg : SmartcarConfig
  pub allowed_vehicle_ids : List Str

unfoldable pub new_service : SmartcarConfig → Service
new_service cfg = record { cfg = cfg; allowed_vehicle_ids = cfg.vehicle_ids }

module _ {W : Type 0} where
  unfoldable pub emit : Event → State W → State W
  emit e st = record st { events = st.events ++ e ∷ [] }

  unfoldable pub note_error : Option GoError → State W → State W
  note_error e st = record st { store = set_last_error e st.store }

  -- A call of the API.
  unfoldable pub call : {A : Type 0} → (W → A × W) → State W → A × State W
  call f st = ((f st.world).0, record st { world = (f st.world).1 })
