-- ===== src/App/Snapshot/Laws.antt =====
-- What a refreshed snapshot of one vehicle holds.
use toyotaview.Common.{
  ℕ, suc, ◌+◌, ◌<◌, ◌≤◌, true, false, ◌||◌, none, some, List, [], ◌∷◌, Str, str_eq, keys, mem,
  mem-keys-insert, IsDistinct, IsDistinct-insert, All-insert, subst, length, GoError, counted,
  Result, ok, err, Time, ◌≡◌, refl, ◌∙◌, ◌⊎◌, inl, inr, arith, All,
}
use toyotaview.Smartcar.Api.{Api}
use toyotaview.Smartcar.Models.{
  state_ok, Vehicle, Signal, SignalSnapshot, VehicleSnapshot, zero_snapshot,
}
use toyotaview.Store.Laws.{IsSnapshot}
use toyotaview.App.Types.{State, Service, call, emit}
use toyotaview.App.Snapshot.{
  Progress, failed_signal, failed_snapshot, mark_partial, record_signal, refresh_signals,
  refresh_found, refresh_vehicle_snapshot,
}

-- A signal that was read, or one whose error names its state.
abbrev pub IsCoherent : Str × SignalSnapshot → Type 0
IsCoherent e =
    ((e.1.error ≡ none) × (e.1.state ≡ state_ok))
    ⊎ ((cause : GoError) × (e.1 ≡ failed_signal e.0 cause))

abbrev pub IsRead : Str × SignalSnapshot → Type 0
IsRead e = (e.1.error ≡ none) × (e.1.state ≡ state_ok)

-- The errors among the results of some calls.
unfoldable pub failures_of : List (Result Signal) → ℕ
failures_of [] = 0
failures_of (err e ∷ results) = suc (failures_of results)
failures_of (ok signal ∷ results) = failures_of results

failures_of_cons :
    (before after : ℕ) (r : Result Signal) (results : List (Result Signal))
    → after ≡ before + failures_of (r ∷ [])
    → after + failures_of results ≡ before + failures_of (r ∷ results)
unfolding failures_of
failures_of_cons before after (err e) results h = omega (arith, h)
failures_of_cons before after (ok signal) results h = omega (arith, h)

-- The loop's variables after some codes.
pub record IsProgress (p : Progress) : Type 0 where
  pub distinct : IsDistinct (keys p.signals)
  pub coherent : All IsCoherent p.signals
  pub clean : p.failures ≡ 0 → All IsRead p.signals

module _ {W : Type 0} where
  record_signal-IsProgress :
      (vehicle_id code : Str) (p : Progress) (r : Result Signal × State W)
      → IsProgress p
      → IsProgress (record_signal vehicle_id code p r).0
  unfolding record_signal
  record_signal-IsProgress vehicle_id code p (err e, st) h = record {
    distinct = IsDistinct-insert code (failed_signal code e) p.signals h.distinct;
    coherent =
        All-insert IsCoherent code (failed_signal code e) p.signals (inr (e, refl)) h.coherent;
    clean = λ z. absurd (omega arith);
  }
  record_signal-IsProgress vehicle_id code p (ok signal, st) h = record {
    distinct = IsDistinct-insert code _ p.signals h.distinct;
    coherent = All-insert IsCoherent code _ p.signals (inl (refl, refl)) h.coherent;
    clean = λ z. All-insert IsRead code _ p.signals (refl, refl) (h.clean z);
  }

  record_signal-keys :
      (vehicle_id code k : Str) (p : Progress) (r : Result Signal × State W)
      → mem k (keys (record_signal vehicle_id code p r).0.signals)
        ≡ (str_eq code k || mem k (keys p.signals))
  unfolding record_signal
  record_signal-keys vehicle_id code k p (err e, st) = mem-keys-insert k code _ p.signals
  record_signal-keys vehicle_id code k p (ok signal, st) = mem-keys-insert k code _ p.signals

  -- Each round counts its error, if the call gives one.
  record_signal-failures :
      (vehicle_id code : Str) (p : Progress) (r : Result Signal × State W)
      → ((record_signal vehicle_id code p r).0.failures ≡ p.failures + failures_of (r.0 ∷ []))
        × ((record_signal vehicle_id code p r).1.world ≡ r.1.world)
  unfolding record_signal failures_of emit
  record_signal-failures vehicle_id code p (err e, st) = (omega arith, refl)
  record_signal-failures vehicle_id code p (ok signal, st) = (omega arith, refl)

  -- Each round counts one code.
  record_signal-tally :
      (vehicle_id code : Str) (p : Progress) (r : Result Signal × State W)
      → (record_signal vehicle_id code p r).0.successes
          + (record_signal vehicle_id code p r).0.failures
        ≡ suc (p.successes + p.failures)
  unfolding record_signal
  record_signal-tally vehicle_id code p (err e, st) = omega arith
  record_signal-tally vehicle_id code p (ok signal, st) = omega arith

  module _ (api : Api W) (now : W → Time) (s : Service) (vehicle_id : Str) where
    pub refresh_signals-IsProgress :
        (codes : List Str) (p : Progress) (st : State W)
        → IsProgress p
        → IsProgress (refresh_signals api now s vehicle_id codes p st).0
    unfolding refresh_signals
    refresh_signals-IsProgress [] p st h = h
    refresh_signals-IsProgress (code ∷ codes) p st h =
        refresh_signals-IsProgress codes _ _ (record_signal-IsProgress vehicle_id code p _ h)

    -- What the API answers to the calls for these codes, one after the other.
    unfoldable pub signal_results : List Str → W → List (Result Signal)
    signal_results [] w = []
    signal_results (code ∷ codes) w =
        let r = api.get_signal s.cfg.user_id vehicle_id code w in r.0 ∷ signal_results codes r.1

    refresh_signals-failures :
        (codes : List Str) (p : Progress) (st : State W)
        → (refresh_signals api now s vehicle_id codes p st).0.failures
          ≡ p.failures + failures_of (signal_results codes st.world)
    unfolding refresh_signals signal_results failures_of call
    refresh_signals-failures [] p st = omega arith
    refresh_signals-failures (code ∷ codes) p st =
        let r = call (api.get_signal s.cfg.user_id vehicle_id code) st in
        let counted = record_signal-failures vehicle_id code p r in
        refresh_signals-failures codes (record_signal vehicle_id code p r).0
          (record_signal vehicle_id code p r).1
        ∙ rw counted.1
            (failures_of_cons p.failures _ r.0 (signal_results codes r.1.world) counted.0)

    refresh_signals-keys :
        (k : Str) (codes : List Str) (p : Progress) (st : State W)
        → mem k (keys (refresh_signals api now s vehicle_id codes p st).0.signals)
          ≡ (mem k (keys p.signals) || mem k codes)
    unfolding refresh_signals mem
    refresh_signals-keys k [] p st = ground arith
    refresh_signals-keys k (code ∷ codes) p st =
        let r = call (api.get_signal s.cfg.user_id vehicle_id code) st in
        refresh_signals-keys k codes (record_signal vehicle_id code p r).0
          (record_signal vehicle_id code p r).1
        ∙ ground (arith, record_signal-keys vehicle_id code k p r)

    refresh_signals-tally :
        (codes : List Str) (p : Progress) (st : State W)
        → (refresh_signals api now s vehicle_id codes p st).0.successes
            + (refresh_signals api now s vehicle_id codes p st).0.failures
          ≡ p.successes + p.failures + length codes
    unfolding refresh_signals
    refresh_signals-tally [] p st = omega arith
    refresh_signals-tally (code ∷ codes) p st =
        let r = call (api.get_signal s.cfg.user_id vehicle_id code) st in
        omega (
          arith,
          refresh_signals-tally codes (record_signal vehicle_id code p r).0
              (record_signal vehicle_id code p r).1,
          record_signal-tally vehicle_id code p r,
        )

-- What the snapshot of a vehicle that the API returned holds, for the configured codes, of whose
-- calls so many failed.
pub record IsRefreshed (codes : List Str) (failures : ℕ) (vehicle : Vehicle)
    (snapshot : VehicleSnapshot) : Type 0 where
  pub same_vehicle : snapshot.vehicle ≡ vehicle
  pub distinct : IsSnapshot snapshot
  pub covered : (code : Str) → mem code (keys snapshot.signals) ≡ mem code codes
  pub coherent : All IsCoherent snapshot.signals
  pub clean : snapshot.error ≡ none → All IsRead snapshot.signals
  pub outcome :
      ((failures ≡ 0) × (snapshot.partial ≡ false) × (snapshot.error ≡ none))
      ⊎ ((0 < failures)
          × (failures ≤ length codes)
          × (snapshot.partial ≡ true)
          × (snapshot.error ≡ some (counted "%d of %d signals failed" failures (length codes))))

abbrev count_error : ℕ → ℕ → GoError
count_error failures codes = counted "%d of %d signals failed" failures codes

mark_partial_clean :
    (n : ℕ) (p : Progress) (b : VehicleSnapshot) → p.failures ≡ 0 → mark_partial n p b ≡ b
unfolding mark_partial
mark_partial_clean n p b z = rw z (ground arith)

mark_partial-some :
    (n : ℕ) (p : Progress) (b : VehicleSnapshot)
    → 0 < p.failures
    → mark_partial n p b ≡ record b { partial = true; error = some (count_error p.failures n) }
unfolding mark_partial
mark_partial-some n p b h = ground arith

-- What the API returned, before it is marked.
abbrev unmarked : Vehicle → Progress → Time → VehicleSnapshot
unmarked v p t = record zero_snapshot { vehicle = v; signals = p.signals; refreshed_at = t }

mark_partial-IsRefreshed :
    (codes : List Str) (p : Progress) (v : Vehicle) (t : Time)
    → IsProgress p
    → p.successes + p.failures ≡ length codes
    → ((code : Str) → mem code (keys p.signals) ≡ mem code codes)
    → IsRefreshed codes p.failures v (mark_partial (length codes) p (unmarked v p t))
mark_partial-IsRefreshed codes p v t h tally covers = elim (zero-or-pos p.failures) [
  | inl z ↦ rw (mark_partial_clean (length codes) p (unmarked v p t) z) (record {
    same_vehicle = refl;
    distinct = h.distinct;
    covered = covers;
    coherent = h.coherent;
    clean = λ _. h.clean z;
    outcome = inl (z, refl, refl);
  })
  | inr pos_failures ↦
      rw (mark_partial-some (length codes) p (unmarked v p t) pos_failures) (record {
        same_vehicle = refl;
        distinct = h.distinct;
        covered = covers;
        coherent = h.coherent;
        clean = λ e. cc e;
        outcome = inr (pos_failures, omega arith, refl, refl);
      })
]
  where
    zero-or-pos : (n : ℕ) → (n ≡ 0) ⊎ (0 < n)
    zero-or-pos n = omega arith

start-IsProgress : IsProgress (record { signals = []; successes = 0; failures = 0 })
unfolding keys
start-IsProgress = record { distinct = tt; coherent = tt; clean = λ _. tt }

module _ {W : Type 0} (api : Api W) (now : W → Time) (s : Service) (vehicle_id : Str) where
  refresh_found-IsRefreshed :
      (v : Vehicle) (st : State W)
      → IsRefreshed s.cfg.signal_codes
          (failures_of (signal_results api now s vehicle_id s.cfg.signal_codes st.world))
          v
          (refresh_found api now s vehicle_id (ok v, st)).0
  unfolding refresh_found keys mem
  refresh_found-IsRefreshed v st =
      subst
        (λ n. IsRefreshed s.cfg.signal_codes n v (refresh_found api now s vehicle_id (ok v, st)).0)
        (refresh_signals-failures api now s vehicle_id s.cfg.signal_codes _ st ∙ omega arith)
        (mark_partial-IsRefreshed s.cfg.signal_codes _ v _
          (refresh_signals-IsProgress api now s vehicle_id s.cfg.signal_codes _ st start-IsProgress)
          (refresh_signals-tally api now s vehicle_id s.cfg.signal_codes _ st ∙ omega arith)
          (λ code. refresh_signals-keys api now s vehicle_id code s.cfg.signal_codes _ st))

  pub refresh_vehicle_snapshot-IsRefreshed :
      (v : Vehicle) (st : State W)
      → (api.get_vehicle vehicle_id st.world).0 ≡ ok v
      → IsRefreshed s.cfg.signal_codes
          (failures_of (
            signal_results api now s vehicle_id s.cfg.signal_codes
              (api.get_vehicle vehicle_id st.world).1))
          v
          (refresh_vehicle_snapshot api now s vehicle_id st).0
  unfolding refresh_vehicle_snapshot call
  refresh_vehicle_snapshot-IsRefreshed v st e =
      rw (e, refresh_found) (refresh_found-IsRefreshed v _)

  pub refresh_vehicle_snapshot_failed :
      (e : GoError) (st : State W)
      → (api.get_vehicle vehicle_id st.world).0 ≡ err e
      → (refresh_vehicle_snapshot api now s vehicle_id st).0 ≡ failed_snapshot vehicle_id e
  unfolding refresh_vehicle_snapshot refresh_found call
  refresh_vehicle_snapshot_failed e st h = rw h
