-- ===== src/App/Concurrent.antt =====
-- RefreshVehicle of internal/app/app.go while other goroutines change the cache.
use toyotaview.Common.{
  Bool-cases, true, false, Option, none, some, List, [], ◌∷◌, Str, str_eq, str_eq_iff, str_eq_refl,
  mem, is_empty, GoError, Time, All, if◌then◌else◌, ◌≡◌, refl, sym, ◌∙◌, inl, inr, subst,
}
use toyotaview.Common.Interleaving.{Interleaved, Interleaved-swap, or_else, last_write}
use toyotaview.Smartcar.Api.{Api}
use toyotaview.Smartcar.Models.{VehicleSnapshot}
use toyotaview.Store.{MemoryStore, set_last_error, get}
use toyotaview.Store.Laws.{IsSnapshot, IsCache, cached, cached-save, get-cached}
use toyotaview.Store.Concurrent.{
  Call, call_save, call_set_last_error, run_call, run_calls, IsCall, saved_at, cached-first,
  run_calls-Interleaved,
}
use toyotaview.App.Types.{State, Service}
use toyotaview.App.Refresh.{refresh_vehicle}
use toyotaview.App.Refresh.Laws.{refresh_one-store}
use toyotaview.App.Refresh.Vehicle.{refresh_allowed, refresh_vehicle-IsSnapshot}

-- The calls of the cache with which RefreshVehicle ends once the vehicle may be refreshed.
unfoldable pub vehicle_calls : VehicleSnapshot × Option GoError → List Call
vehicle_calls (snapshot, e) = call_save snapshot ∷ call_set_last_error e ∷ []

cached-vehicle_calls :
    (r : VehicleSnapshot × Option GoError) (m : MemoryStore) (k : Str)
    → IsSnapshot r.0
    → cached (run_calls (vehicle_calls r) m) k
      ≡ (if str_eq r.0.vehicle.id k then some r.0 else cached m k)
unfolding vehicle_calls run_calls run_call set_last_error
cached-vehicle_calls (s, e) m k h = cached-save s m k h

unwritten_elsewhere :
    (r : VehicleSnapshot × Option GoError) (k : Str)
    → str_eq r.0.vehicle.id k ≡ false
    → last_write (saved_at k) (vehicle_calls r) ≡ none
unfolding vehicle_calls last_write or_else
unwritten_elsewhere (s, e) k other = rw other refl

module _ (r : VehicleSnapshot × Option GoError) (m : MemoryStore) (others zs : List Call)
    (i : Interleaved (vehicle_calls r) others zs) (fine : IsSnapshot r.0)
    (others_fine : All IsCall others)
    (apart : last_write (saved_at r.0.vehicle.id) others ≡ none) where
  calls-IsCall : All IsCall (vehicle_calls r)
  unfolding vehicle_calls
  calls-IsCall = (fine, (tt, tt))

  cached_beside :
      (k : Str)
      → cached (run_calls zs m) k
        ≡ (if str_eq r.0.vehicle.id k then some r.0 else cached (run_calls others m) k)
  cached_beside k = elim (Bool-cases (str_eq r.0.vehicle.id k)) [
    | inl same ↦
        let here : r.0.vehicle.id ≡ k = (str_eq_iff r.0.vehicle.id k).0 same in
        cached-first k m (vehicle_calls r) others zs i calls-IsCall others_fine
          (subst (λ j. last_write (saved_at j) others ≡ none) here apart)
        ∙ cached-vehicle_calls r m k fine
        ∙ rw same refl
    | inr other ↦
        cached-first k m others (vehicle_calls r) zs (Interleaved-swap i) others_fine calls-IsCall
          (unwritten_elsewhere r k other)
        ∙ rw other refl
  ]

  get_beside : IsCache m → get r.0.vehicle.id (run_calls zs m) ≡ (r.0, true)
  get_beside c =
      let kept : IsCache (run_calls zs m) =
        (run_calls-Interleaved m (vehicle_calls r) others zs i calls-IsCall others_fine c).0 in
      let found : cached (run_calls zs m) r.0.vehicle.id ≡ some r.0 =
        cached_beside r.0.vehicle.id ∙ rw (str_eq_refl r.0.vehicle.id) refl in
      get-cached r.0.vehicle.id (run_calls zs m) kept ∙ rw found refl

module _ {W : Type 0} (api : Api W) (now : W → Time) (s : Service) (vehicle_id : Str)
    (st : State W) where
  -- What RefreshVehicle returns.
  abbrev pub refreshed : VehicleSnapshot × Option GoError
  refreshed = (refresh_vehicle api now s vehicle_id st).0

  -- RefreshVehicle of a vehicle of the allowlist changes the cache by the two calls of
  -- `vehicle_calls`. However the lock interleaves them with calls of other goroutines, none of which
  -- saves at the identifier of the returned snapshot, Get returns that snapshot afterwards, and every
  -- other identifier holds what the other calls alone would have left.
  pub refresh_vehicle-Interleaved :
      (m : MemoryStore) (others zs : List Call)
      → is_empty s.allowed_vehicle_ids ≡ false
      → mem vehicle_id s.allowed_vehicle_ids ≡ true
      → Interleaved (vehicle_calls refreshed) others zs
      → All IsCall others
      → last_write (saved_at refreshed.0.vehicle.id) others ≡ none
      → IsCache m
      → ((refresh_vehicle api now s vehicle_id st).1.store
          ≡ run_calls (vehicle_calls refreshed) st.store)
        × (get refreshed.0.vehicle.id (run_calls zs m) ≡ (refreshed.0, true))
        × ((k : Str)
            → cached (run_calls zs m) k ≡ (
                if str_eq refreshed.0.vehicle.id k
                then some refreshed.0
                else cached (run_calls others m) k))
  unfolding vehicle_calls run_calls run_call
  refresh_vehicle-Interleaved m others zs closed allowed i fine apart c =
      let shot : IsSnapshot refreshed.0 = refresh_vehicle-IsSnapshot api now s vehicle_id st in
      (
        subst (λ r. r.1.store ≡ run_calls (vehicle_calls r.0) st.store)
            (sym (refresh_allowed api now s vehicle_id st closed allowed))
            (refresh_one-store api now s vehicle_id st),
        get_beside refreshed m others zs i shot fine apart c,
        cached_beside refreshed m others zs i shot fine apart,
      )
