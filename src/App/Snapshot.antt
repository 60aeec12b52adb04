-- ===== src/App/Snapshot.antt =====
-- refreshVehicleSnapshot and mapSignalState of internal/app/app.go.
pub mod Laws
pub mod States
use toyotaview.Common.{
  ℕ, suc, ◌==◌, Bool, true, false, ◌&&◌, ◌||◌, none, some, List, [], ◌∷◌, Str, Map, insert, length,
  GoError, counted, Result, ok, err, as_api, Time, if◌then◌else◌, ltb,
}
use toyotaview.Smartcar.Api.{Api}
use toyotaview.Smartcar.Models.{
  SignalState, state_ok, unsupported, unavailable, state_error, Vehicle, Signal, SignalSnapshot,
  VehicleSnapshot, zero_signal, zero_vehicle, zero_snapshot,
}
use toyotaview.App.Names.{humanize, group_of}
use toyotaview.App.Types.{vehicle_warned, signal_warned, State, Service, emit, call}

unfoldable pub mem_status : ℕ → List ℕ → Bool
mem_status n [] = false
mem_status n (m ∷ ms) = n == m || mem_status n ms

-- The switch of mapSignalState on `apiErr.Status`.
unfoldable pub status_state : ℕ → SignalState
unfolding mem_status
status_state n =
    if mem_status n (404 ∷ 501 ∷ 400 ∷ [])
    then unsupported
    else if mem_status n (403 ∷ 409 ∷ 430 ∷ 406 ∷ [])
    then unavailable
    else state_error

unfoldable pub map_signal_state : GoError → SignalState
map_signal_state e = elim (as_api e) [ none ↦ state_error | some info ↦ status_state info.status ]

-- The variables of the loop of refreshVehicleSnapshot.
pub record Progress : Type 0 where
  pub signals : Map SignalSnapshot
  pub successes : ℕ
  pub failures : ℕ

unfoldable pub failed_signal : Str → GoError → SignalSnapshot
failed_signal code e = record {
  signal = record zero_signal { code = code; name = humanize code; group = group_of code };
  error = some e;
  state = map_signal_state e;
}

-- The snapshot of a vehicle that the API does not return.
unfoldable pub failed_snapshot : Str → GoError → VehicleSnapshot
failed_snapshot vehicle_id e = record zero_snapshot {
  vehicle = record zero_vehicle { id = vehicle_id };
  error = some e;
}

-- The two tests at the end of refreshVehicleSnapshot.
unfoldable pub mark_partial : ℕ → Progress → VehicleSnapshot → VehicleSnapshot
mark_partial codes p snapshot =
    let marked : VehicleSnapshot =
      if ltb 0 p.failures
      then record snapshot {
        partial = true;
        error = some (counted "%d of %d signals failed" p.failures codes);
      }
      else snapshot in
    if p.successes == 0 && ltb 0 p.failures then record marked { partial = true } else marked

module _ {W : Type 0} where
  -- One round of the loop over the signal codes, after the call.
  unfoldable pub record_signal : Str → Str → Progress → Result Signal × State W → Progress × State W
  record_signal vehicle_id code p (err e, st) = (
    record p { signals = insert code (failed_signal code e) p.signals; failures = suc p.failures },
    emit (signal_warned vehicle_id code (map_signal_state e) e) st,
  )
  record_signal vehicle_id code p (ok signal, st) = (
    record p {
      signals = insert code (record { signal = signal; error = none; state = state_ok }) p.signals;
      successes = suc p.successes;
    },
    st,
  )

module _ {W : Type 0} (api : Api W) (now : W → Time) (s : Service) where
  unfoldable pub refresh_signals : Str → List Str → Progress → State W → Progress × State W
  refresh_signals vehicle_id [] p st = (p, st)
  refresh_signals vehicle_id (code ∷ codes) p st =
      let (p', st') =
        record_signal vehicle_id code p (call (api.get_signal s.cfg.user_id vehicle_id code) st) in
      refresh_signals vehicle_id codes p' st'

  unfoldable pub refresh_found : Str → Result Vehicle × State W → VehicleSnapshot × State W
  refresh_found vehicle_id (err e, st) =
      (failed_snapshot vehicle_id e, emit (vehicle_warned vehicle_id e) st)
  refresh_found vehicle_id (ok vehicle, st) =
      let (p, st') =
        refresh_signals vehicle_id s.cfg.signal_codes
          (record { signals = []; successes = 0; failures = 0 }) st in
      (
        mark_partial (length s.cfg.signal_codes) p (record zero_snapshot {
          vehicle = vehicle;
          signals = p.signals;
          refreshed_at = now st'.world;
        }),
        st',
      )

  unfoldable pub refresh_vehicle_snapshot : Str → State W → VehicleSnapshot × State W
  unfolding refresh_found
  refresh_vehicle_snapshot vehicle_id st =
      refresh_found vehicle_id (call (api.get_vehicle vehicle_id) st)
