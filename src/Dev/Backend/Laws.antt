-- ===== src/Dev/Backend/Laws.antt =====
-- What the mocked backend shows.
use toyotaview.Common.{
  Option, none, some, Str, str, str_eq, lookup, mem, as_api, Option-cases, GoError, ok, Time, ◌≡◌,
  refl, ap, ◌∙◌, inl, inr, if◌then◌else◌,
}
use toyotaview.Smartcar.Models.{SignalState, state_ok, unsupported, unavailable, state_error}
use toyotaview.App.Types.{State, Service}
use toyotaview.App.Snapshot.{map_signal_state, status_state, mem_status, refresh_vehicle_snapshot}
use toyotaview.App.Snapshot.States.{result_state, shown_state, refresh_vehicle_snapshot_states}
use toyotaview.Dev.Outcomes.{
  SignalOutcome, outcome_success, outcome_unsupported, outcome_unavailable, outcome_error,
}
use toyotaview.Dev.Fixtures.{dev_4runner, built_in_vehicle}
use toyotaview.Dev.Values.{Library}
use toyotaview.Dev.Backend.{
  Backend, new_api_error, outcome_failure, signal_failure, find_vehicle, find_signal,
  dev_get_vehicle, dev_get_signal, dev_api, signal_url,
}

-- The state that an outcome stands for.
unfoldable pub outcome_state : Option SignalOutcome → SignalState
outcome_state none = state_ok
outcome_state (some outcome_success) = state_ok
outcome_state (some outcome_unsupported) = unsupported
outcome_state (some outcome_unavailable) = unavailable
outcome_state (some outcome_error) = state_error

-- The state of a failure, if there is one.
failure_state : Option GoError → SignalState
failure_state none = state_ok
failure_state (some e) = map_signal_state e

failure_state-outcome_failure :
    (url : Str) (o : Option SignalOutcome) → failure_state (outcome_failure url o) ≡ outcome_state o
unfolding failure_state outcome_failure outcome_state new_api_error map_signal_state status_state
    mem_status as_api
failure_state-outcome_failure url none = refl
failure_state-outcome_failure url (some outcome_success) = refl
failure_state-outcome_failure url (some outcome_unsupported) = refl
failure_state-outcome_failure url (some outcome_unavailable) = refl
failure_state-outcome_failure url (some outcome_error) = refl

signal_failure_partial :
    (a : Backend) (code : Str)
    → a.scenario ≡ str "partial"
    → signal_failure a (str "dev-4runner") code
      ≡ outcome_failure (signal_url (str "dev-4runner") code) (lookup code a.partial_outcomes)
unfolding signal_failure built_in_vehicle str_eq
signal_failure_partial a code partial = simp partial

module _ {W : Type 0} (lib : Library) (now : W → Time) (context_error : W → Option GoError)
    (a : Backend) where
  result_state-find_signal :
      (vehicle_id code : Str) (t : Time)
      → result_state (find_signal lib now context_error a vehicle_id code t)
        ≡ failure_state (signal_failure a vehicle_id code)
  unfolding find_signal result_state failure_state
  result_state-find_signal vehicle_id code t =
      elim (Option-cases (signal_failure a vehicle_id code)) [
        | inl fine ↦ rw (find_signal, fine) refl
        | inr (e, failed) ↦ rw (find_signal, failed) refl
      ]

  pub dev_get_signal_running :
      (user_id vehicle_id code : Str) (w : W)
      → context_error w ≡ none
      → dev_get_signal lib now context_error a user_id vehicle_id code w
        ≡ (find_signal lib now context_error a vehicle_id code (now w), w)
  unfolding dev_get_signal
  dev_get_signal_running user_id vehicle_id code w running = rw (dev_get_signal, running) refl

  pub dev_get_vehicle_running :
      (vehicle_id : Str) (w : W)
      → context_error w ≡ none
      → dev_get_vehicle lib now context_error a vehicle_id w
        ≡ (find_vehicle lib now context_error a vehicle_id, w)
  unfolding dev_get_vehicle
  dev_get_vehicle_running vehicle_id w running = rw (dev_get_vehicle, running) refl

  find_vehicle_partial :
      a.scenario ≡ str "partial"
      → find_vehicle lib now context_error a (str "dev-4runner") ≡ ok dev_4runner
  unfolding find_vehicle built_in_vehicle str_eq
  find_vehicle_partial partial = simp partial

  -- While the context is not done, a refresh of the 4Runner in the partial scenario shows each
  -- configured code in the state that its outcome stands for, and a code without an outcome as read.
  pub refresh_vehicle_snapshot_partial :
      (s : Service) (st : State W) (k : Str)
      → ((w : W) → context_error w ≡ none)
      → a.scenario ≡ str "partial"
      → shown_state (
          lookup k
            (refresh_vehicle_snapshot
              (dev_api lib now context_error a)
              now
              s
              (str "dev-4runner")
              st).0.signals)
        ≡ (if mem k s.cfg.signal_codes
            then some (outcome_state (lookup k a.partial_outcomes))
            else none)
  unfolding dev_api
  refresh_vehicle_snapshot_partial s st k running partial =
      refresh_vehicle_snapshot_states (dev_api lib now context_error a) now s (str "dev-4runner")
        (λ code. outcome_state (lookup code a.partial_outcomes))
        (λ code w.
          ap (λ r. result_state r.0)
            (dev_get_signal_running s.cfg.user_id (str "dev-4runner") code w (running w))
          ∙ result_state-find_signal (str "dev-4runner") code (now w)
          ∙ ap failure_state (signal_failure_partial a code partial)
          ∙ failure_state-outcome_failure _ (lookup code a.partial_outcomes))
        dev_4runner st k
        (ap (λ r. r.0) (dev_get_vehicle_running (str "dev-4runner") st.world (running st.world))
          ∙ find_vehicle_partial partial)
