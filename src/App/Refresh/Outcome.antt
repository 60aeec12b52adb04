-- ===== src/App/Refresh/Outcome.antt =====
-- When a refresh fails, what it keeps of the cache, and what it refuses.
use toyotaview.Common.{
  ℕ, Result-cases, ◌≤◌, ◌==◌, Bool, true, false, not, Option, none, List, [], ◌∷◌, Str, length, any,
  GoError, Result, ok, err, Time, ◌≡◌, refl, ap, ◌∙◌, inl, inr, ◌↔◌, arith, All, keys,
}
use toyotaview.Smartcar.Api.{Api}
use toyotaview.Smartcar.Models.{Vehicle, VehicleSnapshot, Connection}
use toyotaview.Store.{MemoryStore, set_last_error}
use toyotaview.Store.Laws.{
  IsSnapshot, IsCache, cached, cached-save_many, latest, save_many-IsCache, set_last_error-IsCache,
}
use toyotaview.App.Types.{State, Service}
use toyotaview.App.Select.{filter_connections}
use toyotaview.App.Snapshot.{failed_snapshot, refresh_vehicle_snapshot}
use toyotaview.App.Snapshot.Laws.{
  IsRefreshed, refresh_vehicle_snapshot-IsRefreshed, refresh_vehicle_snapshot_failed,
}
use toyotaview.App.Refresh.{
  is_failed, finish_all, refresh_each, refresh_selected, refresh_listed, refresh_all,
}
use toyotaview.App.Refresh.Laws.{refresh_all-store, finish_all-snapshots}

pub failed_snapshot-IsSnapshot :
    (vehicle_id : Str) (e : GoError) → IsSnapshot (failed_snapshot vehicle_id e)
unfolding failed_snapshot keys
failed_snapshot-IsSnapshot vehicle_id e = tt

failed_snapshot-is_failed :
    (vehicle_id : Str) (e : GoError) → is_failed (failed_snapshot vehicle_id e) ≡ true
unfolding failed_snapshot is_failed
failed_snapshot-is_failed vehicle_id e = refl

IsRefreshed-is_failed :
    (codes : List Str) (failures : ℕ) (v : Vehicle) (snapshot : VehicleSnapshot)
    → IsRefreshed codes failures v snapshot
    → is_failed snapshot ≡ false
unfolding is_failed
IsRefreshed-is_failed codes failures v snapshot r = elim r.outcome [
  | inl whole ↦ rw (whole.2, is_failed)
  | inr part ↦ rw (part.3, part.2, is_failed)
]

-- Some snapshot of the list is not failed.
abbrev pub some_refreshed : List VehicleSnapshot → Bool
some_refreshed snapshots = any (λ snapshot. not (is_failed snapshot)) snapshots

module _ {W : Type 0} (api : Api W) (now : W → Time) (s : Service) where
  abbrev Asked : Str → State W → Result Vehicle
  Asked vehicle_id st = (api.get_vehicle vehicle_id st.world).0

  pub refresh_vehicle_snapshot-IsSnapshot :
      (vehicle_id : Str) (st : State W)
      → IsSnapshot (refresh_vehicle_snapshot api now s vehicle_id st).0
  refresh_vehicle_snapshot-IsSnapshot vehicle_id st = elim (Result-cases (Asked vehicle_id st)) [
    | inl (v, found) ↦
        (refresh_vehicle_snapshot-IsRefreshed api now s vehicle_id v st found).distinct
    | inr (e, lost) ↦
        rw (refresh_vehicle_snapshot_failed api now s vehicle_id e st lost)
          (failed_snapshot-IsSnapshot vehicle_id e)
  ]

  -- A snapshot counts as failed exactly when the API did not return the vehicle: signals that
  -- fail, however many, make it partial.
  pub is_failed-refresh_vehicle_snapshot :
      (vehicle_id : Str) (st : State W)
      → (is_failed (refresh_vehicle_snapshot api now s vehicle_id st).0 ≡ true)
        ↔ ((e : GoError) × ((api.get_vehicle vehicle_id st.world).0 ≡ err e))
  is_failed-refresh_vehicle_snapshot vehicle_id st = elim (Result-cases (Asked vehicle_id st)) [
    | inl (v, found) ↦
        let fine =
          IsRefreshed-is_failed s.cfg.signal_codes _ v
            (refresh_vehicle_snapshot api now s vehicle_id st).0
            (refresh_vehicle_snapshot-IsRefreshed api now s vehicle_id v st found) in
        (λ h. absurd (cc (h, fine)), λ (e, lost). absurd (cc (lost, found)))
    | inr (e, lost) ↦ (
      λ h. (e, lost),
      λ h.
          rw (refresh_vehicle_snapshot_failed api now s vehicle_id e st lost)
            (failed_snapshot-is_failed vehicle_id e),
    )
  ]

  refresh_each-IsSnapshot :
      (cs : List Connection) (st : State W) → All IsSnapshot (refresh_each api now s cs st).0
  unfolding refresh_each
  refresh_each-IsSnapshot [] st = tt
  refresh_each-IsSnapshot (c ∷ cs) st =
      (refresh_vehicle_snapshot-IsSnapshot c.vehicle_id st, refresh_each-IsSnapshot cs _)

  refresh_selected-IsSnapshot :
      (cs : List Connection) (st : State W) → All IsSnapshot (refresh_selected api now s cs st).0.0
  unfolding refresh_selected
  refresh_selected-IsSnapshot [] st = tt
  refresh_selected-IsSnapshot (c ∷ cs) st =
      rw finish_all-snapshots (refresh_each-IsSnapshot (c ∷ cs) st)

  refresh_listed-IsSnapshot :
      (r : Result (List Connection) × State W) → All IsSnapshot (refresh_listed api now s r).0.0
  unfolding refresh_listed
  refresh_listed-IsSnapshot (err e, st) = tt
  refresh_listed-IsSnapshot (ok cs, st) = refresh_selected-IsSnapshot (filter_connections s cs) st

  refresh_all-IsSnapshot : (st : State W) → All IsSnapshot (refresh_all api now s st).0.0
  unfolding refresh_all
  refresh_all-IsSnapshot st = refresh_listed-IsSnapshot _

  -- RefreshAll keeps the invariant of the cache.
  pub refresh_all-IsCache :
      (st : State W) → IsCache st.store → IsCache (refresh_all api now s st).1.store
  refresh_all-IsCache st c =
      rw (refresh_all-store api now s st)
        (set_last_error-IsCache _ _ (save_many-IsCache _ st.store (refresh_all-IsSnapshot st) c))

  cached-set_last_error :
      (e : Option GoError) (m : MemoryStore) (k : Str) → cached (set_last_error e m) k ≡ cached m k
  unfolding set_last_error
  cached-set_last_error e m k = refl

  -- After RefreshAll each identifier holds the last returned snapshot of it, or what it held.
  pub cached-refresh_all :
      (st : State W) (k : Str)
      → cached (refresh_all api now s st).1.store k
        ≡ latest k (refresh_all api now s st).0.0 (cached st.store k)
  cached-refresh_all st k =
      ap (λ m. cached m k) (refresh_all-store api now s st)
      ∙ cached-set_last_error _ _ k
      ∙ cached-save_many _ st.store k (refresh_all-IsSnapshot st)

  -- The counter of the loop reaches the number of snapshots exactly when all failed.
  refresh_each-count :
      (cs : List Connection) (st : State W)
      → ((refresh_each api now s cs st).1 ≤ length (refresh_each api now s cs st).0)
        × (((refresh_each api now s cs st).1 == length (refresh_each api now s cs st).0)
            ≡ not (some_refreshed (refresh_each api now s cs st).0))
  unfolding refresh_each
  refresh_each-count [] st = (omega arith, refl)
  refresh_each-count (c ∷ cs) st =
      let ih = refresh_each-count cs (refresh_vehicle_snapshot api now s c.vehicle_id st).1 in
      ground (arith, ih.0, ih.1)

  -- With a vehicle selected, RefreshAll returns no error exactly when some snapshot did not fail.
  refresh_selected_ok :
      (c : Connection) (cs : List Connection) (st : State W)
      → ((refresh_selected api now s (c ∷ cs) st).0.1 ≡ none)
        ↔ (some_refreshed (refresh_selected api now s (c ∷ cs) st).0.0 ≡ true)
  unfolding refresh_selected finish_all
  refresh_selected_ok c cs st = ground (arith, refresh_each-count (c ∷ cs) st)

  refresh_filtered_ok :
      (cs : List Connection) (st : State W)
      → ((refresh_selected api now s cs st).0.1 ≡ none)
        ↔ (some_refreshed (refresh_selected api now s cs st).0.0 ≡ true)
  refresh_filtered_ok [] st = unfold refresh_selected in ground arith
  refresh_filtered_ok (c ∷ cs) st = refresh_selected_ok c cs st

  refresh_listed_ok :
      (r : Result (List Connection) × State W)
      → ((refresh_listed api now s r).0.1 ≡ none)
        ↔ (some_refreshed (refresh_listed api now s r).0.0 ≡ true)
  unfolding refresh_listed
  refresh_listed_ok (err e, st) = ground arith
  refresh_listed_ok (ok cs, st) = refresh_filtered_ok (filter_connections s cs) st

  -- RefreshAll returns no error exactly when it returns a snapshot that did not fail: it fails
  -- if the connections cannot be listed, if none is selected, or if every vehicle failed.
  pub refresh_all_ok :
      (st : State W)
      → ((refresh_all api now s st).0.1 ≡ none)
        ↔ (some_refreshed (refresh_all api now s st).0.0 ≡ true)
  unfolding refresh_all
  refresh_all_ok st = refresh_listed_ok _
