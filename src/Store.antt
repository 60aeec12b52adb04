-- ===== src/Store.antt =====
-- internal/store/memory.go: the cache of vehicle snapshots. The lock makes each method atomic, so a
-- method is a function of the store.
pub mod Sort
pub mod Laws
pub mod Listing
pub mod Concurrent
mod Tests
use toyotaview.Common.{
  Bool, true, false, Option, none, some, List, [], ◌∷◌, map, Str, Map, lookup, insert, values,
  GoError, is_empty, if◌then◌else◌,
}
use toyotaview.Smartcar.Models.{SignalSnapshot, VehicleSnapshot, zero_snapshot}
use Sort.{sort_by_id}

pub record MemoryStore : Type 0 where
  pub vehicles : Map VehicleSnapshot
  pub last_error : Option GoError

-- NewMemoryStore.
unfoldable pub new_memory_store : MemoryStore
new_memory_store = record { vehicles = []; last_error = none }

-- A copied slice of no bytes is nil, which is the empty string of bytes again.
unfoldable pub clone_bytes : Str → Str
clone_bytes value = if is_empty value then [] else value

-- The loop of cloneVehicleSnapshot.
unfoldable pub clone_signals : Map SignalSnapshot → Map SignalSnapshot → Map SignalSnapshot
unfolding clone_bytes
clone_signals cloned [] = cloned
clone_signals cloned ((code, s) ∷ signals) =
    clone_signals
      (insert code (record s { signal = record (s.signal) { body = clone_bytes s.signal.body } })
        cloned)
      signals

unfoldable pub clone_vehicle_snapshot : VehicleSnapshot → VehicleSnapshot
unfolding clone_signals
clone_vehicle_snapshot s = record s { signals = clone_signals [] s.signals }

unfoldable pub save : VehicleSnapshot → MemoryStore → MemoryStore
save s m = record m { vehicles = insert s.vehicle.id (clone_vehicle_snapshot s) m.vehicles }

unfoldable pub save_many : List VehicleSnapshot → MemoryStore → MemoryStore
unfolding save
save_many [] m = m
save_many (s ∷ snapshots) m = save_many snapshots (save s m)

unfoldable pub get : Str → MemoryStore → VehicleSnapshot × Bool
get vehicle_id m = elim (lookup vehicle_id m.vehicles) [
  | none ↦ (zero_snapshot, false)
  | some s ↦ (clone_vehicle_snapshot s, true)
]

-- The entries of the map in the order of the model; sorting makes the result independent of it.
unfoldable pub list : MemoryStore → List VehicleSnapshot
list m = sort_by_id (map clone_vehicle_snapshot (values m.vehicles))

unfoldable pub set_last_error : Option GoError → MemoryStore → MemoryStore
set_last_error e m = record m { last_error = e }
