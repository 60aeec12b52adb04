-- ===== src/App/Refresh/Cost.antt =====
-- What a refresh costs, for any measure of the world behind the API.
use toyotaview.Common.{
  ℕ, suc, ◌+◌, ◌*◌, ◌≤◌, false, List, [], ◌∷◌, Str, mem, length, is_empty, Result, ok, err, Time,
  ◌≡◌, refl, ap, Bool-cases, inl, inr, arith,
}
use native.Mathlib.Nat.{suc-mul}
use toyotaview.Store.{save}
use toyotaview.Smartcar.Api.{Api}
use toyotaview.Smartcar.Models.{Vehicle, Signal, VehicleSnapshot}
use toyotaview.App.Types.{State, Service, emit, call, note_error}
use toyotaview.App.Snapshot.{
  Progress, record_signal, refresh_signals, refresh_found, refresh_vehicle_snapshot,
}
use toyotaview.App.Refresh.{finish_one, refresh_one, refresh_vehicle, refuse, give_up}

-- A bound on what one call of the API costs.
pub record IsBounded {W : Type 0} (api : Api W) (cost : W → ℕ) (bound : ℕ) : Type 0 where
  pub vehicle : (k : Str) (w : W) → cost (api.get_vehicle k w).1 ≤ cost w + bound
  pub signal : (user k code : Str) (w : W) → cost (api.get_signal user k code w).1 ≤ cost w + bound

module _ {W : Type 0} where
  record_signal-world :
      (vehicle_id code : Str) (p : Progress) (r : Result Signal × State W)
      → (record_signal vehicle_id code p r).1.world ≡ r.1.world
  unfolding record_signal emit
  record_signal-world vehicle_id code p (err e, st) = refl
  record_signal-world vehicle_id code p (ok s, st) = refl

  finish_one-world :
      (snapshot : VehicleSnapshot) (st : State W) → (finish_one snapshot st).1.world ≡ st.world
  unfolding finish_one give_up note_error emit
  finish_one-world snapshot st = ground arith

module _ {W : Type 0} (api : Api W) (now : W → Time) (s : Service) (cost : W → ℕ) (bound : ℕ)
    (fair : IsBounded api cost bound) (vehicle_id : Str) where
  refresh_signals-cost :
      (codes : List Str) (p : Progress) (st : State W)
      → cost (refresh_signals api now s vehicle_id codes p st).1.world
        ≤ cost st.world + length codes * bound
  unfolding refresh_signals call
  refresh_signals-cost [] p st = omega arith
  refresh_signals-cost (code ∷ codes) p st =
      let q = call (api.get_signal s.cfg.user_id vehicle_id code) st in
      let r = record_signal vehicle_id code p q in
      let rest = refresh_signals-cost codes r.0 r.1 in
      let same = ap cost (record_signal-world vehicle_id code p q) in
      let one = fair.signal s.cfg.user_id vehicle_id code st.world in
      omega (arith, rest, same, one, suc-mul (length codes) bound)

  refresh_found-cost :
      (r : Result Vehicle × State W)
      → cost (refresh_found api now s vehicle_id r).1.world
        ≤ cost r.1.world + length s.cfg.signal_codes * bound
  unfolding refresh_found emit
  refresh_found-cost (err e, st) = omega arith
  refresh_found-cost (ok v, st) = refresh_signals-cost s.cfg.signal_codes _ st

  refresh_vehicle_snapshot-cost :
      (st : State W)
      → cost (refresh_vehicle_snapshot api now s vehicle_id st).1.world
        ≤ cost st.world + suc (length s.cfg.signal_codes) * bound
  unfolding refresh_vehicle_snapshot call
  refresh_vehicle_snapshot-cost st =
      let q = call (api.get_vehicle vehicle_id) st in
      let rest = refresh_found-cost q in
      let one = fair.vehicle vehicle_id st.world in
      omega (arith, rest, one, suc-mul (length s.cfg.signal_codes) bound)

  refresh_one-cost :
      (st : State W)
      → cost (refresh_one api now s vehicle_id st).1.world
        ≤ cost st.world + suc (length s.cfg.signal_codes) * bound
  unfolding refresh_one
  refresh_one-cost st =
      let r = refresh_vehicle_snapshot api now s vehicle_id st in
      let same = ap cost (finish_one-world r.0 (record (r.1) { store = save r.0 r.1.store })) in
      omega (arith, same, refresh_vehicle_snapshot-cost st)

  -- With an allowlist, RefreshVehicle costs at most one call of the API for the vehicle and one for
  -- each configured signal code, each at most the bound.
  pub refresh_vehicle-cost :
      (st : State W)
      → is_empty s.allowed_vehicle_ids ≡ false
      → cost (refresh_vehicle api now s vehicle_id st).1.world
        ≤ cost st.world + suc (length s.cfg.signal_codes) * bound
  unfolding refresh_vehicle refuse give_up note_error emit
  refresh_vehicle-cost st closed = elim (Bool-cases (mem vehicle_id s.allowed_vehicle_ids)) [
    | inl allowed ↦ rw (closed, allowed) (refresh_one-cost st)
    | inr denied ↦ rw (closed, denied) (omega arith)
  ]
