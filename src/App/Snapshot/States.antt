-- ===== src/App/Snapshot/States.antt =====
-- The states of the signals after refreshVehicleSnapshot of internal/app/app.go, where the answers of
-- the vehicle API depend on the signal alone.
use toyotaview.Common.{
  ℕ, Option, none, some, List, [], ◌∷◌, Str, str_eq, str_eq_iff, Result, ok, err, lookup,
  lookup-insert, mem, Time, ◌≡◌, refl, ◌∙◌, if◌then◌else◌, arith,
}
use toyotaview.Smartcar.Models.{
  SignalState, state_ok, Vehicle, Signal, SignalSnapshot, VehicleSnapshot,
}
use toyotaview.Smartcar.Api.{Api}
use toyotaview.App.Types.{State, Service, call}
use toyotaview.App.Snapshot.{
  Progress, map_signal_state, mark_partial, record_signal, refresh_signals, refresh_found,
  refresh_vehicle_snapshot, failed_signal,
}

-- The state of a signal that was asked for.
unfoldable pub result_state : Result Signal → SignalState
result_state (ok signal) = state_ok
result_state (err e) = map_signal_state e

unfoldable pub shown_state : Option SignalSnapshot → Option SignalState
shown_state none = none
shown_state (some s) = some s.state

module _ {W : Type 0} (vehicle_id : Str) where
  record_signal_state :
      (k code : Str) (p : Progress) (r : Result Signal × State W)
      → shown_state (lookup k (record_signal vehicle_id code p r).0.signals)
        ≡ (if str_eq code k then some (result_state r.0) else shown_state (lookup k p.signals))
  unfolding record_signal result_state shown_state failed_signal
  record_signal_state k code p (ok signal, st) =
      rw
        (lookup-insert code k (record { signal = signal; error = none; state = state_ok })
          p.signals)
        (ground arith)
  record_signal_state k code p (err e, st) =
      rw (lookup-insert code k (failed_signal code e) p.signals) (ground arith)

mark_partial-signals :
    (n : ℕ) (p : Progress) (s : VehicleSnapshot) → (mark_partial n p s).signals ≡ s.signals
unfolding mark_partial
mark_partial-signals n p s = ground arith

module _ {W : Type 0} (api : Api W) (now : W → Time) (s : Service) (vehicle_id : Str)
    (state_of : Str → SignalState)
    (known : (code : Str) (w : W)
      → result_state (api.get_signal s.cfg.user_id vehicle_id code w).0 ≡ state_of code) where
  refresh_signals_state :
      (k : Str) (codes : List Str) (p : Progress) (st : State W)
      → shown_state (lookup k (refresh_signals api now s vehicle_id codes p st).0.signals)
        ≡ (if mem k codes then some (state_of k) else shown_state (lookup k p.signals))
  unfolding refresh_signals mem
  refresh_signals_state k [] p st = refl
  refresh_signals_state k (code ∷ codes) p st =
      let r = call (api.get_signal s.cfg.user_id vehicle_id code) st in
      let asked : result_state r.0 ≡ state_of code = unfold call in known code st.world in
      refresh_signals_state k codes (record_signal vehicle_id code p r).0
        (record_signal vehicle_id code p r).1
      ∙ rw (record_signal_state vehicle_id k code p r, asked) (ground (arith, str_eq_iff code k))

  -- Where the API returns the vehicle, each configured code is shown in the state that the API's
  -- answers have, and no other code is shown.
  pub refresh_vehicle_snapshot_states :
      (v : Vehicle) (st : State W) (k : Str)
      → (api.get_vehicle vehicle_id st.world).0 ≡ ok v
      → shown_state (lookup k (refresh_vehicle_snapshot api now s vehicle_id st).0.signals)
        ≡ (if mem k s.cfg.signal_codes then some (state_of k) else none)
  unfolding refresh_vehicle_snapshot refresh_found call lookup shown_state
  refresh_vehicle_snapshot_states v st k found =
      rw (found, refresh_found, mark_partial-signals)
        (refresh_signals_state k s.cfg.signal_codes _ _)
