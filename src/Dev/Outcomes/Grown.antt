-- ===== src/Dev/Outcomes/Grown.antt =====
-- How the outcomes of buildPartialOutcomes grow: each assignment gives a configured code that has no
-- outcome one that no other code has.
use toyotaview.Common.{
  ap, str_eq_refl, true, false, ◌||◌, none, some, List, [], ◌∷◌, Str, str_eq, str_eq_iff, Map,
  lookup, insert, lookup-insert, mem, is_some, Bool-cases, ◌≡◌, refl, sym, ◌∙◌, inl, inr,
  if◌then◌else◌, arith,
}
use toyotaview.Dev.Outcomes.{
  SignalOutcome, outcome_success, outcome_unsupported, outcome_unavailable, outcome_error,
  same_outcome, has_outcome,
}

pub same_outcome_refl : (o : SignalOutcome) → same_outcome o o ≡ true
unfolding same_outcome
same_outcome_refl outcome_success = refl
same_outcome_refl outcome_unsupported = refl
same_outcome_refl outcome_unavailable = refl
same_outcome_refl outcome_error = refl

pub same_outcome-eq : (o p : SignalOutcome) → same_outcome o p ≡ true → o ≡ p
unfolding same_outcome
same_outcome-eq outcome_success outcome_success h = refl
same_outcome-eq outcome_success outcome_unsupported h = absurd (cc h)
same_outcome-eq outcome_success outcome_unavailable h = absurd (cc h)
same_outcome-eq outcome_success outcome_error h = absurd (cc h)
same_outcome-eq outcome_unsupported outcome_success h = absurd (cc h)
same_outcome-eq outcome_unsupported outcome_unsupported h = refl
same_outcome-eq outcome_unsupported outcome_unavailable h = absurd (cc h)
same_outcome-eq outcome_unsupported outcome_error h = absurd (cc h)
same_outcome-eq outcome_unavailable outcome_success h = absurd (cc h)
same_outcome-eq outcome_unavailable outcome_unsupported h = absurd (cc h)
same_outcome-eq outcome_unavailable outcome_unavailable h = refl
same_outcome-eq outcome_unavailable outcome_error h = absurd (cc h)
same_outcome-eq outcome_error outcome_success h = absurd (cc h)
same_outcome-eq outcome_error outcome_unsupported h = absurd (cc h)
same_outcome-eq outcome_error outcome_unavailable h = absurd (cc h)
same_outcome-eq outcome_error outcome_error h = refl

-- A way from one map of outcomes to another by assignments to the codes.
pub data Grown (codes : List Str) : Map SignalOutcome → Map SignalOutcome → Type 0 where
  stays : (m : Map SignalOutcome) → Grown codes m m
  assigns :
      {m n : Map SignalOutcome} (k : Str) (o : SignalOutcome)
      → mem k codes ≡ true
      → lookup k m ≡ none
      → has_outcome m o ≡ false
      → same_outcome o outcome_success ≡ false
      → Grown codes (insert k o m) n
      → Grown codes m n

pub Grown-trans :
    {codes : List Str} {l m n : Map SignalOutcome}
    → Grown codes l m
    → Grown codes m n
    → Grown codes l n
Grown-trans (stays m) h = h
Grown-trans (assigns k o listed free fresh failure rest) h =
    assigns k o listed free fresh failure (Grown-trans rest h)

has_outcome-lookup :
    (k : Str) (o : SignalOutcome) (m : Map SignalOutcome)
    → lookup k m ≡ some o
    → has_outcome m o ≡ true
unfolding lookup has_outcome
has_outcome-lookup k o [] h = absurd (ground arith)
has_outcome-lookup k o ((j, p) ∷ m) h = elim (Bool-cases (str_eq j k)) [
  | inl same ↦ ground (arith, same_outcome_refl o)
  | inr other ↦ ground (arith, has_outcome-lookup k o m)
]

-- An assignment to a code without an outcome adds that outcome and keeps the others.
pub has_outcome-insert :
    (k : Str) (o p : SignalOutcome) (m : Map SignalOutcome)
    → lookup k m ≡ none
    → has_outcome (insert k o m) p ≡ (has_outcome m p || same_outcome o p)
unfolding lookup insert has_outcome
has_outcome-insert k o p [] h = ground arith
has_outcome-insert k o p ((j, q) ∷ m) h = ground (arith, has_outcome-insert k o p m)

-- Two codes with the same outcome are equal.
abbrev pub IsOnce : Map SignalOutcome → Type 0
IsOnce m = (a b : Str) (o : SignalOutcome) → lookup a m ≡ some o → lookup b m ≡ some o → a ≡ b

-- The codes with an outcome are among these, and the outcomes are failures.
abbrev pub IsWithin : List Str → Map SignalOutcome → Type 0
IsWithin codes m =
    (a : Str) (o : SignalOutcome)
    → lookup a m ≡ some o
    → (mem a codes ≡ true) × (same_outcome o outcome_success ≡ false)

-- An outcome that the code looks for is one that a code has.
abbrev pub IsFound : Map SignalOutcome → Type 0
IsFound m = (o : SignalOutcome) → has_outcome m o ≡ true → (a : Str) × (lookup a m ≡ some o)

IsFound-insert :
    (k : Str) (o : SignalOutcome) (m : Map SignalOutcome)
    → lookup k m ≡ none
    → IsFound m
    → IsFound (insert k o m)
IsFound-insert k o m free found p h = elim (Bool-cases (same_outcome o p)) [
  | inl same ↦ (k, lookup-insert k k o m ∙ rw (str_eq_refl k) (ap some (same_outcome-eq o p same)))
  | inr other ↦
      let had : has_outcome m p ≡ true =
        ground (arith, sym (has_outcome-insert k o p m free) ∙ h, other) in
      let (a, at_a) = found p had in
      (
        a,
        lookup-insert k a o m ∙ (elim (Bool-cases (str_eq k a)) [
          | inl same ↦ absurd (cc ((str_eq_iff k a).0 same, free, at_a))
          | inr apart ↦ rw apart at_a
        ]),
      )
]

pub Grown-IsFound :
    {codes : List Str} {m n : Map SignalOutcome} → Grown codes m n → IsFound m → IsFound n
Grown-IsFound (stays m) found = found
Grown-IsFound {m = m} (assigns k o listed free fresh failure rest) found =
    Grown-IsFound rest (IsFound-insert k o m free found)

IsOnce-insert :
    (k : Str) (o : SignalOutcome) (m : Map SignalOutcome)
    → has_outcome m o ≡ false
    → IsOnce m
    → IsOnce (insert k o m)
IsOnce-insert k o m fresh once a b p ha hb =
    let at_a : (if str_eq k a then some o else lookup a m) ≡ some p =
      sym (lookup-insert k a o m) ∙ ha in
    let at_b : (if str_eq k b then some o else lookup b m) ≡ some p =
      sym (lookup-insert k b o m) ∙ hb in
    ground (
      arith,
      str_eq_iff k a,
      str_eq_iff k b,
      has_outcome-lookup a p m,
      has_outcome-lookup b p m,
      once a b p,
    )

IsWithin-insert :
    (codes : List Str) (k : Str) (o : SignalOutcome) (m : Map SignalOutcome)
    → mem k codes ≡ true
    → same_outcome o outcome_success ≡ false
    → IsWithin codes m
    → IsWithin codes (insert k o m)
IsWithin-insert codes k o m listed failure within a p h =
    let at_a : (if str_eq k a then some o else lookup a m) ≡ some p =
      sym (lookup-insert k a o m) ∙ h in
    ground (arith, str_eq_iff k a, within a p)

pub Grown-IsOnce :
    {codes : List Str} {m n : Map SignalOutcome} → Grown codes m n → IsOnce m → IsOnce n
Grown-IsOnce (stays m) once = once
Grown-IsOnce {m = m} (assigns k o listed free fresh failure rest) once =
    Grown-IsOnce rest (IsOnce-insert k o m fresh once)

pub Grown-IsWithin :
    {codes : List Str} {m n : Map SignalOutcome}
    → Grown codes m n
    → IsWithin codes m
    → IsWithin codes n
Grown-IsWithin (stays m) within = within
Grown-IsWithin {codes = codes} {m = m} (assigns k o listed free fresh failure rest) within =
    Grown-IsWithin rest (IsWithin-insert codes k o m listed failure within)

-- What has an outcome keeps one.
pub is_some-Grown :
    {codes : List Str} {m n : Map SignalOutcome} (a : Str)
    → Grown codes m n
    → is_some (lookup a m) ≡ true
    → is_some (lookup a n) ≡ true
is_some-Grown a (stays m) h = h
is_some-Grown {m = m} a (assigns k o listed free fresh failure rest) h =
    is_some-Grown a rest (rw (lookup-insert k a o m) (ground (arith, h)))

-- An outcome that some code has stays with some code.
pub has_outcome-Grown :
    {codes : List Str} {m n : Map SignalOutcome} (p : SignalOutcome)
    → Grown codes m n
    → has_outcome m p ≡ true
    → has_outcome n p ≡ true
has_outcome-Grown p (stays m) h = h
has_outcome-Grown {m = m} p (assigns k o listed free fresh failure rest) h =
    has_outcome-Grown p rest (rw (has_outcome-insert k o p m free, h) refl)
