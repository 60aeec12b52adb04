-- ===== src/App/Refresh/Vehicle.antt =====
-- RefreshVehicle: the allowlist, and what a failure does to the cached snapshot.
use toyotaview.Common.{
  Bool-cases, true, false, Option, some, List, Str, str_eq_refl, mem, is_empty, GoError, Result,
  Result-cases, ok, err, Time, ◌≡◌, refl, ap, ◌∙◌, inl, inr, keys, subst,
}
use toyotaview.Smartcar.Api.{Api}
use toyotaview.Smartcar.Models.{Vehicle, Connection}
use toyotaview.Store.{MemoryStore, save, set_last_error, get}
use toyotaview.Store.Laws.{
  IsSnapshot, IsCache, cached, cached-save, save-IsCache, set_last_error-IsCache, get-cached,
}
use toyotaview.App.Types.{State, Service}
use toyotaview.App.Select.{is_connected}
use toyotaview.App.Snapshot.{failed_snapshot, refresh_vehicle_snapshot}
use toyotaview.App.Snapshot.Laws.{
  refresh_vehicle_snapshot_failed, refresh_vehicle_snapshot-IsRefreshed,
}
use toyotaview.App.Refresh.{finish_one, refresh_one, refresh_connected, refresh_vehicle}
use toyotaview.App.Refresh.Laws.{refresh_vehicle-store, refresh_one-store, finish_one-snapshot}
use toyotaview.App.Refresh.Outcome.{refresh_vehicle_snapshot-IsSnapshot, failed_snapshot-IsSnapshot}

module _ {W : Type 0} (api : Api W) (now : W → Time) (s : Service) (vehicle_id : Str) where
  refresh_one-snapshot :
      (st : State W)
      → (refresh_one api now s vehicle_id st).0.0
        ≡ (refresh_vehicle_snapshot api now s vehicle_id st).0
  unfolding refresh_one
  refresh_one-snapshot st = finish_one-snapshot _ _

  pub refresh_allowed :
      (st : State W)
      → is_empty s.allowed_vehicle_ids ≡ false
      → mem vehicle_id s.allowed_vehicle_ids ≡ true
      → refresh_vehicle api now s vehicle_id st ≡ refresh_one api now s vehicle_id st
  unfolding refresh_vehicle
  refresh_allowed st closed allowed = rw (closed, allowed)

  cached-set :
      (e : Option GoError) (m : MemoryStore) (k : Str) → cached (set_last_error e m) k ≡ cached m k
  unfolding set_last_error
  cached-set e m k = refl

  failed_snapshot-id : (e : GoError) → (failed_snapshot vehicle_id e).vehicle.id ≡ vehicle_id
  unfolding failed_snapshot
  failed_snapshot-id e = refl

  finish_one_failed :
      (e : GoError) (st : State W) → (finish_one (failed_snapshot vehicle_id e) st).0.1 ≡ some e
  unfolding finish_one failed_snapshot
  finish_one_failed e st = refl

  refresh_one_failed :
      (e : GoError) (st : State W)
      → (api.get_vehicle vehicle_id st.world).0 ≡ err e
      → ((refresh_one api now s vehicle_id st).0.0 ≡ failed_snapshot vehicle_id e)
        × ((refresh_one api now s vehicle_id st).0.1 ≡ some e)
  unfolding refresh_one
  refresh_one_failed e st lost =
      let failed = refresh_vehicle_snapshot_failed api now s vehicle_id e st lost in
      (refresh_one-snapshot st ∙ failed, rw failed (finish_one_failed e _))

  failed_snapshot-is_saved :
      (e : GoError) (m : MemoryStore)
      → cached (save (failed_snapshot vehicle_id e) m) vehicle_id
        ≡ some (failed_snapshot vehicle_id e)
  unfolding failed_snapshot
  failed_snapshot-is_saved e m =
      cached-save (failed_snapshot vehicle_id e) m vehicle_id
        (failed_snapshot-IsSnapshot vehicle_id e)
      ∙ rw (str_eq_refl vehicle_id)

  -- Where the API does not return a vehicle of the allowlist, RefreshVehicle returns the API's error, and
  -- the cached snapshot of the vehicle, whatever it was, is replaced by one with no attributes and
  -- no signals.
  pub refresh_vehicle_overwrites :
      (e : GoError) (st : State W)
      → is_empty s.allowed_vehicle_ids ≡ false
      → mem vehicle_id s.allowed_vehicle_ids ≡ true
      → (api.get_vehicle vehicle_id st.world).0 ≡ err e
      → ((refresh_vehicle api now s vehicle_id st).0.1 ≡ some e)
        × (cached (refresh_vehicle api now s vehicle_id st).1.store vehicle_id
            ≡ some (failed_snapshot vehicle_id e))
  refresh_vehicle_overwrites e st closed allowed lost =
      let (shown, failed) = refresh_one_failed e st lost in
      rw (refresh_allowed st closed allowed) (
        failed,
        ap (λ m. cached m vehicle_id) (refresh_one-store api now s vehicle_id st)
            ∙ cached-set _ _ vehicle_id
            ∙ rw shown (failed_snapshot-is_saved e st.store),
      )

  refresh_one-IsSnapshot : (st : State W) → IsSnapshot (refresh_one api now s vehicle_id st).0.0
  refresh_one-IsSnapshot st =
      rw (refresh_one-snapshot st) (refresh_vehicle_snapshot-IsSnapshot api now s vehicle_id st)

  refresh_connected-IsSnapshot :
      (r : Result (List Connection) × State W)
      → IsSnapshot (refresh_connected api now s vehicle_id r).0.0
  unfolding refresh_connected keys
  refresh_connected-IsSnapshot (err e, st) = tt
  refresh_connected-IsSnapshot (ok cs, st) = elim (Bool-cases (is_connected vehicle_id cs)) [
    | inl found ↦ rw found (refresh_one-IsSnapshot st)
    | inr missing ↦ rw missing tt
  ]

  pub refresh_vehicle-IsSnapshot :
      (st : State W) → IsSnapshot (refresh_vehicle api now s vehicle_id st).0.0
  unfolding refresh_vehicle keys
  refresh_vehicle-IsSnapshot st = elim (Bool-cases (is_empty s.allowed_vehicle_ids)) [
    | inl open_list ↦ rw open_list (refresh_connected-IsSnapshot _)
    | inr closed ↦ elim (Bool-cases (mem vehicle_id s.allowed_vehicle_ids)) [
      | inl allowed ↦ rw (closed, allowed) (refresh_one-IsSnapshot st)
      | inr denied ↦ rw (closed, denied) tt
    ]
  ]

  -- RefreshVehicle keeps the invariant of the cache on every branch.
  pub refresh_vehicle-IsCache :
      (st : State W) → IsCache st.store → IsCache (refresh_vehicle api now s vehicle_id st).1.store
  refresh_vehicle-IsCache st c = elim (refresh_vehicle-store api now s vehicle_id st) [
    | inl refused ↦ rw (refused.2) (set_last_error-IsCache _ st.store c)
    | inr saved ↦
        rw saved
          (set_last_error-IsCache _ _ (save-IsCache _ st.store (refresh_vehicle-IsSnapshot st) c))
  ]

  -- Where the API answers with the vehicle that it is asked for, the snapshot is of that vehicle.
  id-refresh_one :
      (st : State W)
      → ((v : Vehicle) → (api.get_vehicle vehicle_id st.world).0 ≡ ok v → v.id ≡ vehicle_id)
      → (refresh_one api now s vehicle_id st).0.0.vehicle.id ≡ vehicle_id
  id-refresh_one st honest =
      ap (λ shot. shot.vehicle.id) (refresh_one-snapshot st)
      ∙ (elim (Result-cases ((api.get_vehicle vehicle_id st.world).0)) [
        | inl (v, found) ↦
            ap (λ car. car.id)
              (refresh_vehicle_snapshot-IsRefreshed api now s vehicle_id v st found).same_vehicle
            ∙ honest v found
        | inr (e, lost) ↦
            ap (λ shot. shot.vehicle.id)
              (refresh_vehicle_snapshot_failed api now s vehicle_id e st lost)
            ∙ failed_snapshot-id e
      ])

  -- After RefreshVehicle of a vehicle of the allowlist, Get finds what RefreshVehicle returned.
  pub get-refresh_vehicle :
      (st : State W)
      → is_empty s.allowed_vehicle_ids ≡ false
      → mem vehicle_id s.allowed_vehicle_ids ≡ true
      → ((v : Vehicle) → (api.get_vehicle vehicle_id st.world).0 ≡ ok v → v.id ≡ vehicle_id)
      → IsCache st.store
      → get vehicle_id (refresh_vehicle api now s vehicle_id st).1.store
        ≡ ((refresh_vehicle api now s vehicle_id st).0.0, true)
  get-refresh_vehicle st closed allowed honest c = rw (refresh_allowed st closed allowed) (
      let same = id-refresh_one st honest in
      let kept =
        subst (λ out. IsCache out.1.store) (refresh_allowed st closed allowed)
          (refresh_vehicle-IsCache st c) in
      let found : cached (refresh_one api now s vehicle_id st).1.store vehicle_id
          ≡ some (refresh_one api now s vehicle_id st).0.0 =
        ap (λ m. cached m vehicle_id) (refresh_one-store api now s vehicle_id st)
        ∙ cached-set _ _ vehicle_id
        ∙ cached-save _ st.store vehicle_id (refresh_one-IsSnapshot st)
        ∙ rw (same, str_eq_refl vehicle_id) refl in
      get-cached vehicle_id _ kept ∙ rw found refl)
