-- ===== src/Dev/Backend/Refresh.antt =====
-- RefreshAll of internal/app/app.go over the mocked backend.
use toyotaview.Common.{
  true, false, Option, none, str, str_eq, is_empty, GoError, ok, Time, Bool-cases, ◌≡◌, refl, ap,
  ◌∙◌, ◌⊎◌, inl, inr,
}
use toyotaview.App.Types.{State, Service, call}
use toyotaview.App.Select.{filter_connections}
use toyotaview.App.Snapshot.{refresh_vehicle_snapshot}
use toyotaview.App.Refresh.{is_failed, refresh_each, refresh_selected, refresh_listed, refresh_all}
use toyotaview.App.Refresh.Laws.{finish_all-snapshots}
use toyotaview.App.Refresh.Outcome.{is_failed-refresh_vehicle_snapshot, refresh_all_ok}
use toyotaview.Dev.Fixtures.{
  dev_4runner, built_in_vehicle, built_in_connection, built_in_connections, clone_connection,
  clone_connections,
}
use toyotaview.Dev.Values.{Library}
use toyotaview.Dev.Backend.{Backend, find_vehicle, dev_list_connections, dev_get_vehicle, dev_api}
use toyotaview.Dev.Backend.Laws.{dev_get_vehicle_running}

module _ {W : Type 0} (lib : Library) (now : W → Time) (context_error : W → Option GoError)
    (a : Backend) (s : Service) where
  -- A scenario in which the vehicles are there.
  abbrev pub IsUp : Type 0
  IsUp = (a.scenario ≡ str "happy") ⊎ (a.scenario ≡ str "partial")

  find_vehicle_up : IsUp → find_vehicle lib now context_error a (str "dev-4runner") ≡ ok dev_4runner
  unfolding find_vehicle built_in_vehicle str_eq
  find_vehicle_up (inl happy) = simp happy
  find_vehicle_up (inr partial) = simp partial

  list_connections_up :
      (w : W)
      → context_error w ≡ none
      → IsUp
      → dev_list_connections lib now context_error a s.cfg.user_id w
        ≡ (ok (clone_connections (built_in_connections s.cfg.user_id)), w)
  unfolding dev_list_connections str_eq
  list_connections_up w running (inl happy) = simp (dev_list_connections, running, happy)
  list_connections_up w running (inr partial) = simp (dev_list_connections, running, partial)

  refreshed_4runner :
      (st : State W)
      → ((w : W) → context_error w ≡ none)
      → IsUp
      → is_failed
          (refresh_vehicle_snapshot
            (dev_api lib now context_error a)
            now
            s
            (str "dev-4runner")
            st).0
        ≡ false
  unfolding dev_api
  refreshed_4runner st running up =
      let found : (dev_get_vehicle lib now context_error a (str "dev-4runner") st.world).0
          ≡ ok dev_4runner =
        ap (λ r. r.0)
          (dev_get_vehicle_running lib now context_error a (str "dev-4runner") st.world
            (running st.world))
        ∙ find_vehicle_up up in
      let failed_iff =
        is_failed-refresh_vehicle_snapshot (dev_api lib now context_error a) now s
          (str "dev-4runner") st in
      elim (Bool-cases (
        is_failed
          (refresh_vehicle_snapshot (dev_api lib now context_error a) now s (str "dev-4runner")
            st).0)) [
              | inl failed ↦ let lost = failed_iff.0 failed in absurd (cc (lost.1, found))
              | inr fine ↦ fine
            ]

  -- In the happy and in the partial scenario, while the context is not done, RefreshAll without an
  -- allowlist returns no error.
  pub refresh_all_up :
      (st : State W)
      → ((w : W) → context_error w ≡ none)
      → IsUp
      → is_empty s.allowed_vehicle_ids ≡ true
      → (refresh_all (dev_api lib now context_error a) now s st).0.1 ≡ none
  unfolding refresh_all refresh_listed filter_connections refresh_selected refresh_each call dev_api
      clone_connections clone_connection built_in_connections built_in_connection
  refresh_all_up st running up all = (refresh_all_ok (dev_api lib now context_error a) now s st).1 (
      rw (list_connections_up st.world (running st.world) up, refresh_all, refresh_listed, all)
        (rw (finish_all-snapshots, refreshed_4runner st running up) refl))
