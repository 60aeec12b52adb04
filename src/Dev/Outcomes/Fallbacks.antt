-- ===== src/Dev/Outcomes/Fallbacks.antt =====
-- How the fallbacks of buildPartialOutcomes are assigned.
use toyotaview.Common.{
  Bool, true, false, ◌||◌, none, List, [], ◌∷◌, Str, str_eq, str_eq_iff, Map, lookup, insert,
  lookup-insert_self, mem, is_some, All, Bool-cases, Option-cases, ◌≡◌, refl, ap, subst, ◌⊎◌, inl,
  inr, arith,
}
use toyotaview.Dev.Outcomes.{
  SignalOutcome, outcome_success, outcome_unsupported, outcome_unavailable, outcome_error,
  same_outcome, has_outcome, take_fallback, assign_fallbacks, fallback_outcomes,
}
use toyotaview.Dev.Outcomes.Grown.{
  same_outcome-eq, Grown, stays, assigns, Grown-trans, is_some-Grown, has_outcome-insert,
}

abbrev pub IsFailure : SignalOutcome → Type 0
IsFailure o = same_outcome o outcome_success ≡ false

-- Every failure has a code.
abbrev pub IsFull : Map SignalOutcome → Type 0
IsFull m = (o : SignalOutcome) → IsFailure o → has_outcome m o ≡ true

-- Every code has an outcome.
abbrev pub Covers : List Str → Map SignalOutcome → Type 0
Covers codes m = (a : Str) → mem a codes ≡ true → is_some (lookup a m) ≡ true

pub mem_outcome : SignalOutcome → List SignalOutcome → Bool
mem_outcome o [] = false
mem_outcome o (p ∷ outcomes) = same_outcome p o || mem_outcome o outcomes

-- A failure has a code, or it is still to be assigned.
abbrev pub Pending : Map SignalOutcome → List SignalOutcome → Type 0
Pending m outcomes =
    (o : SignalOutcome) → IsFailure o → (has_outcome m o ≡ true) ⊎ (mem_outcome o outcomes ≡ true)

List-cases :
    (outcomes : List SignalOutcome)
    → (outcomes ≡ [])
      ⊎ ((o : SignalOutcome) × ((rest : List SignalOutcome) × (outcomes ≡ o ∷ rest)))
List-cases [] = inl refl
List-cases (o ∷ outcomes) = inr (o, (outcomes, refl))

IsFull-Pending :
    (m : Map SignalOutcome) (outcomes : List SignalOutcome)
    → outcomes ≡ []
    → Pending m outcomes
    → IsFull m
unfolding mem_outcome
IsFull-Pending m [] h pending o failure = ground (arith, pending o failure)
IsFull-Pending m (p ∷ outcomes) h pending o failure = absurd (cc h)

module _ (codes : List Str) where
  Grown-take_fallback :
      (m : Map SignalOutcome) (k : Str) (outcomes : List SignalOutcome)
      → mem k codes ≡ true
      → lookup k m ≡ none
      → All IsFailure outcomes
      → Grown codes m (take_fallback m k outcomes).0
  unfolding take_fallback
  Grown-take_fallback m k [] listed free failures = stays m
  Grown-take_fallback m k (o ∷ outcomes) listed free failures =
      elim (Bool-cases (has_outcome m o)) [
        | inl had ↦ rw had (Grown-take_fallback m k outcomes listed free failures.1)
        | inr fresh ↦ rw fresh (assigns k o listed free fresh failures.0 (stays (insert k o m)))
      ]

  All-take_fallback :
      (m : Map SignalOutcome) (k : Str) (outcomes : List SignalOutcome)
      → All IsFailure outcomes
      → All IsFailure (take_fallback m k outcomes).1
  unfolding take_fallback
  All-take_fallback m k [] failures = failures
  All-take_fallback m k (o ∷ outcomes) failures = elim (Bool-cases (has_outcome m o)) [
    | inl had ↦ rw had (All-take_fallback m k outcomes failures.1)
    | inr fresh ↦ rw fresh failures.1
  ]

  Pending-take_fallback :
      (m : Map SignalOutcome) (k : Str) (outcomes : List SignalOutcome)
      → lookup k m ≡ none
      → Pending m outcomes
      → Pending (take_fallback m k outcomes).0 (take_fallback m k outcomes).1
  unfolding take_fallback mem_outcome
  Pending-take_fallback m k [] free pending = pending
  Pending-take_fallback m k (o ∷ outcomes) free pending = elim (Bool-cases (has_outcome m o)) [
    | inl had ↦ rw had (
        Pending-take_fallback m k outcomes free
          (λ p failure. ground (arith, pending p failure, same_outcome-eq o p)))
    | inr fresh ↦
        rw fresh (λ p failure. ground (arith, pending p failure, has_outcome-insert k o p m free))
  ]

  -- The code that the inner loop runs for has an outcome after it, or no fallback is left.
  take_fallback_serves :
      (m : Map SignalOutcome) (k : Str) (outcomes : List SignalOutcome)
      → ((take_fallback m k outcomes).1 ≡ [])
        ⊎ (is_some (lookup k (take_fallback m k outcomes).0) ≡ true)
  unfolding take_fallback
  take_fallback_serves m k [] = inl refl
  take_fallback_serves m k (o ∷ outcomes) = elim (Bool-cases (has_outcome m o)) [
    | inl had ↦ rw had (take_fallback_serves m k outcomes)
    | inr fresh ↦ rw fresh (inr (ap is_some (lookup-insert_self k o m)))
  ]

  -- Where the loop leads: by assignments, to a map where every failure has a code or each of these
  -- codes has an outcome.
  abbrev pub Settled : List Str → Map SignalOutcome → Map SignalOutcome → Type 0
  Settled some_codes m n = Grown codes m n × (IsFull n ⊎ Covers some_codes n)

  Settled-cons :
      {m l n : Map SignalOutcome} (k : Str) (some_codes : List Str)
      → Grown codes m l
      → is_some (lookup k l) ≡ true
      → Settled some_codes l n
      → Settled (k ∷ some_codes) m n
  unfolding mem
  Settled-cons {n = n} k some_codes before served (grown, inl full) =
      (Grown-trans before grown, inl full)
  Settled-cons {n = n} k some_codes before served (grown, inr covers) = (
    Grown-trans before grown,
    inr (λ a h. elim (Bool-cases (str_eq k a)) [
      | inl same ↦
          subst (λ c. is_some (lookup c n) ≡ true) ((str_eq_iff k a).0 same)
            (is_some-Grown k grown served)
      | inr other ↦ covers a (rw other at h)
    ]),
  )

  pub Settled-assign_fallbacks :
      (m : Map SignalOutcome) (outcomes : List SignalOutcome) (some_codes : List Str)
      → All (λ k. mem k codes ≡ true) some_codes
      → All IsFailure outcomes
      → Pending m outcomes
      → Settled some_codes m (assign_fallbacks m outcomes some_codes)
  unfolding assign_fallbacks mem
  Settled-assign_fallbacks m outcomes [] listed failures pending =
      (stays m, inr (λ a h. absurd (cc h)))
  Settled-assign_fallbacks m outcomes (k ∷ some_codes) listed failures pending =
      elim (Option-cases (lookup k m)) [
        | inr (p, taken) ↦
            rw (assign_fallbacks, taken)
              (Settled-cons k some_codes (stays m) (rw taken refl)
                (Settled-assign_fallbacks m outcomes some_codes listed.1 failures pending))
        | inl free ↦
            let taken = take_fallback m k outcomes in
            let step = Grown-take_fallback m k outcomes listed.0 free failures in
            let left = All-take_fallback m k outcomes failures in
            let waiting = Pending-take_fallback m k outcomes free pending in
            elim (List-cases taken.1) [
              | inl spent ↦
                  rw (assign_fallbacks, free, spent)
                    (step, inl (IsFull-Pending taken.0 taken.1 spent waiting))
              | inr (o, (rest, more)) ↦
                  let served : is_some (lookup k taken.0) ≡ true =
                    elim (take_fallback_serves m k outcomes) [
                      | inl spent ↦ absurd (cc (spent, more))
                      | inr there ↦ there
                    ] in
                  rw (assign_fallbacks, free, more)
                    (Settled-cons k some_codes step served (
                      Settled-assign_fallbacks taken.0 (o ∷ rest) some_codes listed.1
                        (subst (λ l. All IsFailure l) more left)
                        (subst (λ l. Pending taken.0 l) more waiting)))
            ]
      ]

pub Pending-fallback_outcomes : (m : Map SignalOutcome) → Pending m fallback_outcomes
unfolding mem_outcome same_outcome
Pending-fallback_outcomes m outcome_success failure = absurd (cc failure)
Pending-fallback_outcomes m outcome_unsupported failure = inr refl
Pending-fallback_outcomes m outcome_unavailable failure = inr refl
Pending-fallback_outcomes m outcome_error failure = inr refl
