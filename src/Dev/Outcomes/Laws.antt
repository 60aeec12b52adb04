-- ===== src/Dev/Outcomes/Laws.antt =====
-- What buildPartialOutcomes assigns.
use toyotaview.Common.{
  Option, none, some, is_some, is_empty, ap, ◌≢◌, true, false, List, [], ◌∷◌, Str, str_eq_refl, Map,
  lookup, insert, mem, All, Bool-cases, Option-cases, ◌≡◌, refl, ◌⊎◌, inl, inr, arith,
}
use toyotaview.Common.Text.{trim_space}
use toyotaview.Dev.Outcomes.Unique.{IsCodeOf, IsCodeOf-unique_signal_codes, mem-unique_signal_codes}
use toyotaview.Dev.Outcomes.{
  SignalOutcome, outcome_success, outcome_unsupported, outcome_unavailable, outcome_error,
  same_outcome, unique_signal_codes, has_outcome, assign_first, assign_preferred_outcome,
  fallback_outcomes, unsupported_codes, unavailable_codes, error_codes, preferred_outcomes,
  build_partial_outcomes,
}
use toyotaview.Dev.Outcomes.Grown.{
  Grown, stays, assigns, Grown-trans, Grown-IsFound, IsOnce, Grown-IsOnce, Grown-IsWithin,
}
use toyotaview.Dev.Outcomes.Fallbacks.{
  IsFailure, Settled-assign_fallbacks, Pending-fallback_outcomes,
}

module _ (codes : List Str) where
  Grown-assign_first :
      (m : Map SignalOutcome) (o : SignalOutcome) (preferred : List Str)
      → has_outcome m o ≡ false
      → IsFailure o
      → Grown codes m (assign_first m codes o preferred)
  unfolding assign_first
  Grown-assign_first m o [] fresh failure = stays m
  Grown-assign_first m o (k ∷ preferred) fresh failure = elim (Bool-cases (mem k codes)) [
    | inr other ↦ rw other (Grown-assign_first m o preferred fresh failure)
    | inl listed ↦ elim (Option-cases (lookup k m)) [
      | inr (p, taken) ↦ rw (listed, taken) (Grown-assign_first m o preferred fresh failure)
      | inl free ↦ rw (listed, free) (assigns k o listed free fresh failure (stays (insert k o m)))
    ]
  ]

  Grown-assign_preferred_outcome :
      (m : Map SignalOutcome) (o : SignalOutcome) (preferred : List Str)
      → IsFailure o
      → Grown codes m (assign_preferred_outcome m codes o preferred)
  unfolding assign_preferred_outcome
  Grown-assign_preferred_outcome m o preferred failure = elim (Bool-cases (has_outcome m o)) [
    | inl had ↦ rw had (stays m)
    | inr fresh ↦ rw fresh (Grown-assign_first m o preferred fresh failure)
  ]

  Grown-preferred_outcomes : Grown codes [] (preferred_outcomes codes)
  unfolding preferred_outcomes same_outcome
  Grown-preferred_outcomes =
      Grown-trans
        (Grown-trans (Grown-assign_preferred_outcome [] outcome_unsupported unsupported_codes refl)
          (Grown-assign_preferred_outcome _ outcome_unavailable unavailable_codes refl))
        (Grown-assign_preferred_outcome _ outcome_error error_codes refl)

All-mem :
    (codes some_codes : List Str)
    → ((k : Str) → mem k some_codes ≡ true → mem k codes ≡ true)
    → All (λ k. mem k codes ≡ true) some_codes
unfolding mem
All-mem codes [] f = tt
All-mem codes (c ∷ some_codes) f =
    (f c (rw (str_eq_refl c) refl), All-mem codes some_codes (λ k h. f k (ground (arith, h))))

-- What holds of the outcomes for these configured codes: no two codes share one, each is a failure of
-- a configured code that is not blank, without the white space around it, and every failure has a
-- code unless every configured code that is not blank has an outcome.
pub record IsAssigned (signal_codes : List Str) (m : Map SignalOutcome) : Type 0 where
  pub once : IsOnce m
  pub within :
      (a : Str) (o : SignalOutcome)
      → lookup a m ≡ some o
      → IsCodeOf signal_codes a × (o ≢ outcome_success)
  pub complete :
      ((o : SignalOutcome) → o ≢ outcome_success → (a : Str) × (lookup a m ≡ some o))
      ⊎ ((c : Str)
          → mem c signal_codes ≡ true
          → is_empty (trim_space c) ≡ false
          → (o : SignalOutcome) × (lookup (trim_space c) m ≡ some o))

IsFailure-differs : (o : SignalOutcome) → o ≢ outcome_success → IsFailure o
unfolding same_outcome
IsFailure-differs outcome_success other = absurd (other refl)
IsFailure-differs outcome_unsupported other = refl
IsFailure-differs outcome_unavailable other = refl
IsFailure-differs outcome_error other = refl

differs-IsFailure : (o : SignalOutcome) → IsFailure o → o ≢ outcome_success
unfolding same_outcome
differs-IsFailure o failure same =
    absurd (cc (ap (λ p. same_outcome p outcome_success) same, failure))

given : (r : Option SignalOutcome) → is_some r ≡ true → (o : SignalOutcome) × (r ≡ some o)
given none h = absurd (cc h)
given (some o) h = (o, refl)

-- In the partial scenario no two codes fail alike, only configured codes that are not blank fail, and
-- each of the three failures is shown unless every such code fails.
pub build_partial_outcomes-IsAssigned :
    (signal_codes : List Str) → IsAssigned signal_codes (build_partial_outcomes signal_codes)
unfolding build_partial_outcomes same_outcome lookup has_outcome
build_partial_outcomes-IsAssigned signal_codes =
    let codes = unique_signal_codes signal_codes in
    let before = preferred_outcomes codes in
    let settled =
      Settled-assign_fallbacks codes before fallback_outcomes codes (All-mem codes codes (λ k h. h))
        (refl, (refl, (refl, tt))) (Pending-fallback_outcomes before) in
    let grown = Grown-trans (Grown-preferred_outcomes codes) settled.0 in
    record {
      once = Grown-IsOnce grown (λ a b o h. absurd (cc h));
      within = λ a o h.
          let held = Grown-IsWithin grown (λ b p e. absurd (cc e)) a o h in
          (IsCodeOf-unique_signal_codes signal_codes a held.0, differs-IsFailure o held.1);
      complete = elim settled.1 [
        | inl full ↦ inl (λ o other.
            Grown-IsFound grown (λ p e. absurd (cc e)) o (full o (IsFailure-differs o other)))
        | inr covers ↦ inr (λ c listed shown.
            given _ (covers (trim_space c) (mem-unique_signal_codes signal_codes c listed shown)))
      ];
    }
