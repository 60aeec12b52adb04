-- ===== src/App/Refresh/Laws.antt =====
-- What RefreshAll and RefreshVehicle leave in the cache, on every branch.
use toyotaview.Common.{
  ℕ, Bool-cases, Option, some, List, [], ◌∷◌, Str, String, mem, is_empty, GoError, sentinel,
  wrapped_with, vehicle_not_allowed, no_vehicles, Result, ok, err, Time, ◌≡◌, refl, ◌∙◌, ◌⊎◌, inl,
  inr, arith,
}
use toyotaview.Smartcar.Api.{Api}
use toyotaview.Smartcar.Models.{Vehicle, Signal, VehicleSnapshot, Connection, zero_snapshot}
use toyotaview.Store.{MemoryStore, save, save_many, set_last_error}
use toyotaview.App.Types.{State, Service, call, emit}
use toyotaview.App.Select.{filter_connections, is_connected}
use toyotaview.App.Snapshot.{
  Progress, record_signal, refresh_signals, refresh_found, refresh_vehicle_snapshot,
}
use toyotaview.App.Refresh.{
  give_up, finish_all, finish_one, refuse, refresh_each, refresh_selected, refresh_listed,
  refresh_all, refresh_one, refresh_connected, refresh_vehicle,
}

module _ {W : Type 0} where
  record_signal-store :
      (vehicle_id code : Str) (p : Progress) (r : Result Signal × State W)
      → (record_signal vehicle_id code p r).1.store ≡ r.1.store
  unfolding record_signal emit
  record_signal-store vehicle_id code p (err e, st) = refl
  record_signal-store vehicle_id code p (ok signal, st) = refl

  finish_all-store :
      (snapshots : List VehicleSnapshot) (failed : ℕ) (st : State W)
      → (finish_all snapshots failed st).1.store
        ≡ set_last_error (finish_all snapshots failed st).0.1 (save_many snapshots st.store)
  unfolding finish_all set_last_error
  finish_all-store snapshots failed st = ground arith

  pub finish_all-snapshots :
      (snapshots : List VehicleSnapshot) (failed : ℕ) (st : State W)
      → (finish_all snapshots failed st).0.0 ≡ snapshots
  unfolding finish_all
  finish_all-snapshots snapshots failed st = ground arith

  finish_one-store :
      (snapshot : VehicleSnapshot) (st : State W)
      → (finish_one snapshot st).1.store ≡ set_last_error (finish_one snapshot st).0.1 st.store
  unfolding finish_one set_last_error
  finish_one-store snapshot st = ground arith

  pub finish_one-snapshot :
      (snapshot : VehicleSnapshot) (st : State W) → (finish_one snapshot st).0.0 ≡ snapshot
  unfolding finish_one
  finish_one-snapshot snapshot st = ground arith

module _ {W : Type 0} where
  -- The cache after a refresh that returned these snapshots and this error.
  abbrev pub StoredAll : MemoryStore → (List VehicleSnapshot × Option GoError) × State W → Type 0
  StoredAll before r = r.1.store ≡ set_last_error r.0.1 (save_many r.0.0 before)

  -- The cache after a refresh of one vehicle: either it was refused, with an error and nothing
  -- saved, or the returned snapshot was saved.
  abbrev pub StoredOne : MemoryStore → (VehicleSnapshot × Option GoError) × State W → Type 0
  StoredOne before r =
      ((r.0.0 ≡ zero_snapshot)
        × ((e : GoError) × (r.0.1 ≡ some e))
        × (r.1.store ≡ set_last_error r.0.1 before))
      ⊎ (r.1.store ≡ set_last_error r.0.1 (save r.0.0 before))

module _ {W : Type 0} (api : Api W) (now : W → Time) (s : Service) where
  refresh_signals-store :
      (vehicle_id : Str) (codes : List Str) (p : Progress) (st : State W)
      → (refresh_signals api now s vehicle_id codes p st).1.store ≡ st.store
  unfolding refresh_signals call
  refresh_signals-store vehicle_id [] p st = refl
  refresh_signals-store vehicle_id (code ∷ codes) p st =
      refresh_signals-store vehicle_id codes _ _ ∙ record_signal-store vehicle_id code p _

  refresh_found-store :
      (vehicle_id : Str) (r : Result Vehicle × State W)
      → (refresh_found api now s vehicle_id r).1.store ≡ r.1.store
  unfolding refresh_found emit
  refresh_found-store vehicle_id (err e, st) = refl
  refresh_found-store vehicle_id (ok v, st) =
      refresh_signals-store vehicle_id s.cfg.signal_codes _ st

  pub refresh_vehicle_snapshot-store :
      (vehicle_id : Str) (st : State W)
      → (refresh_vehicle_snapshot api now s vehicle_id st).1.store ≡ st.store
  unfolding refresh_vehicle_snapshot call
  refresh_vehicle_snapshot-store vehicle_id st = refresh_found-store vehicle_id _

  refresh_each-store :
      (cs : List Connection) (st : State W) → (refresh_each api now s cs st).2.store ≡ st.store
  unfolding refresh_each
  refresh_each-store [] st = refl
  refresh_each-store (c ∷ cs) st =
      refresh_each-store cs _ ∙ refresh_vehicle_snapshot-store c.vehicle_id st

  refresh_selected-store :
      (cs : List Connection) (st : State W) → StoredAll st.store (refresh_selected api now s cs st)
  unfolding refresh_selected save_many give_up
  refresh_selected-store [] st = refl
  refresh_selected-store (c ∷ cs) st =
      rw (finish_all-store, finish_all-snapshots, refresh_each-store)

  refresh_listed-store :
      (r : Result (List Connection) × State W) → StoredAll r.1.store (refresh_listed api now s r)
  unfolding refresh_listed save_many give_up
  refresh_listed-store (err e, st) = refl
  refresh_listed-store (ok cs, st) = refresh_selected-store (filter_connections s cs) st

  -- RefreshAll saves exactly the snapshots that it returns, and leaves the error that it returns,
  -- or none, as the last error.
  pub refresh_all-store : (st : State W) → StoredAll st.store (refresh_all api now s st)
  unfolding refresh_all call
  refresh_all-store st = refresh_listed-store _

  pub refresh_one-store :
      (vehicle_id : Str) (st : State W)
      → (refresh_one api now s vehicle_id st).1.store
        ≡ set_last_error
            (refresh_one api now s vehicle_id st).0.1
            (save (refresh_one api now s vehicle_id st).0.0 st.store)
  unfolding refresh_one
  refresh_one-store vehicle_id st =
      rw (finish_one-store, finish_one-snapshot, refresh_vehicle_snapshot-store)

  refuse-store :
      (what : String) (e : GoError) (st : State W) → StoredOne st.store (refuse what e st)
  unfolding refuse
  refuse-store what e st = inl (refl, (e, refl), refl)

  refresh_connected-store :
      (vehicle_id : Str) (r : Result (List Connection) × State W)
      → StoredOne r.1.store (refresh_connected api now s vehicle_id r)
  unfolding refresh_connected
  refresh_connected-store vehicle_id (err e, st) = refuse-store "list connections failed" e st
  refresh_connected-store vehicle_id (ok cs, st) = elim (Bool-cases (is_connected vehicle_id cs)) [
    | inl found ↦ rw found (inr (refresh_one-store vehicle_id st))
    | inr missing ↦
        rw missing
          (refuse-store "vehicle missing" (wrapped_with (sentinel no_vehicles) vehicle_id) st)
  ]

  -- RefreshVehicle either refuses, with an error and nothing saved, or saves exactly the snapshot
  -- that it returns. The error that it returns, or none, is left as the last error.
  pub refresh_vehicle-store :
      (vehicle_id : Str) (st : State W)
      → StoredOne st.store (refresh_vehicle api now s vehicle_id st)
  unfolding refresh_vehicle call
  refresh_vehicle-store vehicle_id st = elim (Bool-cases (is_empty s.allowed_vehicle_ids)) [
    | inl open_list ↦ rw open_list (refresh_connected-store vehicle_id _)
    | inr closed ↦ elim (Bool-cases (mem vehicle_id s.allowed_vehicle_ids)) [
      | inl allowed ↦ rw (closed, allowed) (inr (refresh_one-store vehicle_id st))
      | inr denied ↦
          rw (closed, denied) (refuse-store "vehicle not allowed" (sentinel vehicle_not_allowed) st)
    ]
  ]
