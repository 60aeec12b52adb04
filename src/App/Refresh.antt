-- ===== src/App/Refresh.antt =====
-- RefreshAll and RefreshVehicle of internal/app/app.go.
pub mod Laws
pub mod Outcome
pub mod Vehicle
pub mod Cost
use toyotaview.Common.{
  ℕ, suc, ◌==◌, Bool, false, not, Option, none, some, List, [], ◌∷◌, Str, String, mem, length,
  is_empty, GoError, sentinel, counted, wrapped_with, Result, ok, err, no_vehicles,
  vehicle_not_allowed, Time, if◌then◌else◌, ltb,
}
use toyotaview.Smartcar.Api.{Api}
use toyotaview.Smartcar.Models.{VehicleSnapshot, Connection, zero_snapshot}
use toyotaview.Store.{save, save_many, list}
use toyotaview.App.Types.{
  span_failed, refresh_recorded, cached_vehicles_set, State, Service, emit, note_error, call,
}
use toyotaview.App.Select.{filter_connections, is_connected}
use toyotaview.App.Snapshot.{refresh_vehicle_snapshot}

-- `snapshot.Err != nil && !snapshot.Partial`.
unfoldable pub is_failed : VehicleSnapshot → Bool
is_failed s = elim s.error [ none ↦ false | some e ↦ not s.partial ]

module _ {W : Type 0} where
  -- A refresh that ends early: the error is kept in the cache and returned.
  unfoldable pub give_up : String → String → GoError → State W → State W
  unfolding emit note_error
  give_up scope what e st =
      emit (refresh_recorded scope "error") (emit (span_failed what e) (note_error (some e) st))

  -- SaveMany, SetLastError(nil) and SetCachedVehicles.
  unfoldable pub store_all : List VehicleSnapshot → State W → State W
  unfolding emit note_error
  store_all snapshots st =
      let saved : State W = record st { store = save_many snapshots st.store } in
      let cleared : State W = note_error none saved in
      emit (cached_vehicles_set (length (list cleared.store))) cleared

  unfoldable pub finish_all :
      List VehicleSnapshot → ℕ → State W → (List VehicleSnapshot × Option GoError) × State W
  unfolding store_all give_up
  finish_all snapshots failed st =
      let stored : State W = store_all snapshots st in
      let e : GoError = counted "%d of %d vehicles failed to refresh" failed (length snapshots) in
      if failed == length snapshots
      then ((snapshots, some e), give_up "all" "all vehicles failed" e stored)
      else (
        (snapshots, none),
        emit (refresh_recorded "all" (if ltb 0 failed then "partial" else "ok")) stored,
      )

  -- RefreshVehicle after Save.
  unfoldable pub finish_one :
      VehicleSnapshot → State W → (VehicleSnapshot × Option GoError) × State W
  unfolding emit note_error give_up
  finish_one snapshot st =
      let cleared : State W = note_error none st in
      let counted_st : State W = emit (cached_vehicles_set (length (list cleared.store))) cleared in
      let finished : State W =
        emit (refresh_recorded "vehicle" (if snapshot.partial then "partial" else "ok"))
          counted_st in
      elim snapshot.error [
        | none ↦ ((snapshot, none), finished)
        | some e ↦
            if snapshot.partial
            then ((snapshot, none), finished)
            else ((snapshot, some e), give_up "vehicle" "vehicle refresh failed" e st)
      ]

  unfoldable pub refuse : String → GoError → State W → (VehicleSnapshot × Option GoError) × State W
  unfolding give_up
  refuse what e st = ((zero_snapshot, some e), give_up "vehicle" what e st)

module _ {W : Type 0} (api : Api W) (now : W → Time) (s : Service) where
  -- The loop of RefreshAll: the snapshots, the number that failed, and the state.
  unfoldable pub refresh_each : List Connection → State W → List VehicleSnapshot × ℕ × State W
  refresh_each [] st = ([], 0, st)
  refresh_each (c ∷ cs) st =
      let (snapshot, st') = refresh_vehicle_snapshot api now s c.vehicle_id st in
      let (snapshots, failed, st'') = refresh_each cs st' in
      (snapshot ∷ snapshots, (if is_failed snapshot then suc failed else failed), st'')

  unfoldable pub refresh_selected :
      List Connection → State W → (List VehicleSnapshot × Option GoError) × State W
  refresh_selected [] st =
      (([], some (sentinel no_vehicles)), give_up "all" "no vehicles" (sentinel no_vehicles) st)
  refresh_selected (c ∷ cs) st =
      let (snapshots, failed, st') = refresh_each (c ∷ cs) st in finish_all snapshots failed st'

  unfoldable pub refresh_listed :
      Result (List Connection) × State W → (List VehicleSnapshot × Option GoError) × State W
  refresh_listed (err e, st) = (([], some e), give_up "all" "list connections failed" e st)
  refresh_listed (ok connections, st) = refresh_selected (filter_connections s connections) st

  unfoldable pub refresh_all : State W → (List VehicleSnapshot × Option GoError) × State W
  unfolding refresh_listed
  refresh_all st = refresh_listed (call (api.list_connections s.cfg.user_id) st)

  -- RefreshVehicle once the vehicle may be refreshed.
  unfoldable pub refresh_one : Str → State W → (VehicleSnapshot × Option GoError) × State W
  refresh_one vehicle_id st =
      let (snapshot, st') = refresh_vehicle_snapshot api now s vehicle_id st in
      finish_one snapshot (record st' { store = save snapshot st'.store })

  unfoldable pub refresh_connected :
      Str → Result (List Connection) × State W → (VehicleSnapshot × Option GoError) × State W
  unfolding refuse
  refresh_connected vehicle_id (err e, st) = refuse "list connections failed" e st
  refresh_connected vehicle_id (ok connections, st) =
      if is_connected vehicle_id connections
      then refresh_one vehicle_id st
      else refuse "vehicle missing" (wrapped_with (sentinel no_vehicles) vehicle_id) st

  unfoldable pub refresh_vehicle : Str → State W → (VehicleSnapshot × Option GoError) × State W
  unfolding refresh_connected refuse
  refresh_vehicle vehicle_id st =
      if is_empty s.allowed_vehicle_ids
      then refresh_connected vehicle_id (call (api.list_connections s.cfg.user_id) st)
      else if mem vehicle_id s.allowed_vehicle_ids
      then refresh_one vehicle_id st
      else refuse "vehicle not allowed" (sentinel vehicle_not_allowed) st
