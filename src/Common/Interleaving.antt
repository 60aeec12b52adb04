-- ===== src/Common/Interleaving.antt =====
-- Two sequences of steps that run at the same time, and the last of the steps that writes a place.
use toyotaview.Common.{
  All, Option, none, some, List, [], ◌∷◌, ◌≡◌, refl, sym, ap, ◌∙◌, ◌⊎◌, inl, inr,
}

-- Each step of the two sequences stands once in the third, in the order of its own sequence.
pub data Interleaved {ℓ} {C : Type ℓ} : List C → List C → List C → Type ℓ where
  both_done : Interleaved [] [] []
  of_first : {xs ys zs : List C} (c : C) → Interleaved xs ys zs → Interleaved (c ∷ xs) ys (c ∷ zs)
  of_second : {xs ys zs : List C} (c : C) → Interleaved xs ys zs → Interleaved xs (c ∷ ys) (c ∷ zs)

unfoldable pub or_else {ℓ} : {V : Type ℓ} → Option V → Option V → Option V
or_else none before = before
or_else (some v) before = some v

pub or_else_assoc {ℓ} :
    {V : Type ℓ} (a b c : Option V) → or_else (or_else a b) c ≡ or_else a (or_else b c)
unfolding or_else
or_else_assoc none b c = refl
or_else_assoc (some v) b c = refl

-- A place that some steps write: `writes c` is the value that the step leaves there, if it writes it.
module _ {ℓ κ} {C : Type ℓ} {V : Type κ} (writes : C → Option V) where
  -- The value that the last writing step leaves.
  unfoldable pub last_write : List C → Option V
  last_write [] = none
  last_write (c ∷ cs) = or_else (last_write cs) (writes c)

  -- The last write of two sequences is the last write of one of them, and of the other one where
  -- that one has none.
  abbrev IsLast : Option V → Option V → Option V → Type κ
  IsLast z x y = ((z ≡ x) × (x ≡ none → y ≡ none)) ⊎ ((z ≡ y) × (y ≡ none → x ≡ none))

  or_else-none : (x o : Option V) → or_else x o ≡ none → x ≡ none
  unfolding or_else
  or_else-none none o e = refl
  or_else-none (some v) o e = e

  IsLast-first : (z x y o : Option V) → IsLast z x y → IsLast (or_else z o) (or_else x o) y
  unfolding or_else
  IsLast-first z x y o (inl (same, later)) =
      inl (ap (λ q. or_else q o) same, λ e. later (or_else-none x o e))
  IsLast-first z x none o (inr (same, later)) =
      inl (ap (λ q. or_else q o) (same ∙ sym (later refl)), λ e. refl)
  IsLast-first z x (some w) o (inr (same, later)) =
      inr (ap (λ q. or_else q o) same, λ e. absurd (cc e))

  IsLast-swap : (z x y : Option V) → IsLast z x y → IsLast z y x
  IsLast-swap z x y (inl h) = inr h
  IsLast-swap z x y (inr h) = inl h

  pub last_write-Interleaved :
      {xs ys zs : List C}
      → Interleaved xs ys zs
      → IsLast (last_write zs) (last_write xs) (last_write ys)
  unfolding last_write
  last_write-Interleaved both_done = inl (refl, λ h. h)
  last_write-Interleaved (of_first c i) = IsLast-first _ _ _ (writes c) (last_write-Interleaved i)
  last_write-Interleaved (of_second c i) =
      IsLast-swap _ _ _
        (IsLast-first _ _ _ (writes c) (IsLast-swap _ _ _ (last_write-Interleaved i)))

  -- Where the second sequence does not write the place, the first one alone decides it.
  pub last_write-first :
      {xs ys zs : List C}
      → Interleaved xs ys zs
      → last_write ys ≡ none
      → last_write zs ≡ last_write xs
  last_write-first i unwritten = elim (last_write-Interleaved i) [
    | inl (same, later) ↦ same
    | inr (same, later) ↦ same ∙ unwritten ∙ sym (later unwritten)
  ]

pub All-Interleaved {ℓ κ} :
    {C : Type ℓ} (P : C → Type κ) {xs ys zs : List C}
    → Interleaved xs ys zs
    → All P xs
    → All P ys
    → All P zs
All-Interleaved P both_done first second = tt
All-Interleaved P (of_first c i) first second = (first.0, All-Interleaved P i first.1 second)
All-Interleaved P (of_second c i) first second = (second.0, All-Interleaved P i first second.1)

pub Interleaved-swap {ℓ} :
    {C : Type ℓ} {xs ys zs : List C} → Interleaved xs ys zs → Interleaved ys xs zs
Interleaved-swap both_done = both_done
Interleaved-swap (of_first c i) = of_second c (Interleaved-swap i)
Interleaved-swap (of_second c i) = of_first c (Interleaved-swap i)
