-- ===== src/Common/Maps.antt =====
-- Go maps with string keys: an association list that holds each key at most once.
use mathlib.Core.Path.{◌≡◌, refl, subst₂}
use mathlib.Core.Logic.{inl, inr}
use mathlib.Core.Bool.{Bool, true, false, ◌||◌}
use mathlib.Core.Option.{Option, none, some}
use mathlib.Core.List.{List, [], ◌∷◌}
use native.Mathlib.Omega.{arith}
use toyotaview.Common.Tests.{if◌then◌else◌, Bool-cases}
use toyotaview.Common.Lists.{All}
use toyotaview.Common.Bytes.{Str, str_eq, str_eq_iff, str_eq_refl}

abbrev pub Map {ℓ} : Type ℓ → Type ℓ
Map V = List (Str × V)

module _ {ℓ} {V : Type ℓ} where
  unfoldable pub lookup : Str → Map V → Option V
  lookup k [] = none
  lookup k ((j, v) ∷ m) = if str_eq j k then some v else lookup k m

  -- `m[k] = v`.
  unfoldable pub insert : Str → V → Map V → Map V
  insert k v [] = (k, v) ∷ []
  insert k v ((j, w) ∷ m) = if str_eq j k then (k, v) ∷ m else (j, w) ∷ insert k v m

  unfoldable pub keys : Map V → List Str
  keys [] = []
  keys ((k, v) ∷ m) = k ∷ keys m

  unfoldable pub values : Map V → List V
  values [] = []
  values ((k, v) ∷ m) = v ∷ values m

  abbrev pub is_some : Option V → Bool
  is_some none = false
  is_some (some v) = true

  pub lookup-insert :
      (k j : Str) (v : V) (m : Map V)
      → lookup j (insert k v m) ≡ (if str_eq k j then some v else lookup j m)
  unfolding lookup insert
  lookup-insert k j v [] = refl
  lookup-insert k j v ((i, w) ∷ m) =
      ground (arith, str_eq_iff k j, str_eq_iff i k, str_eq_iff i j, lookup-insert k j v m)

  pub lookup-insert_self : (k : Str) (v : V) (m : Map V) → lookup k (insert k v m) ≡ some v
  lookup-insert_self k v m = simp (lookup-insert, str_eq_refl)

-- slices.Contains and the program's own loops over a slice of strings.
unfoldable pub mem : Str → List Str → Bool
mem x [] = false
mem x (y ∷ ys) = str_eq y x || mem x ys

-- No string stands twice.
abbrev pub IsDistinct : List Str → Type 0
IsDistinct [] = Unit
IsDistinct (x ∷ xs) = (mem x xs ≡ false) × IsDistinct xs

module _ {ℓ} {V : Type ℓ} where
  -- A write adds its key and no other.
  pub mem-keys-insert :
      (j k : Str) (v : V) (m : Map V) → mem j (keys (insert k v m)) ≡ (str_eq k j || mem j (keys m))
  unfolding mem keys insert
  mem-keys-insert j k v [] = refl
  mem-keys-insert j k v ((i, w) ∷ m) =
      ground (arith, str_eq_iff i k, str_eq_iff k j, str_eq_iff i j, mem-keys-insert j k v m)

  pub IsDistinct-insert :
      (k : Str) (v : V) (m : Map V) → IsDistinct (keys m) → IsDistinct (keys (insert k v m))
  unfolding keys insert mem
  IsDistinct-insert k v [] h = (refl, tt)
  IsDistinct-insert k v ((i, w) ∷ m) h =
      ground (
        arith,
        str_eq_iff i k,
        str_eq_iff k i,
        mem-keys-insert i k v m,
        IsDistinct-insert k v m h.1,
      )

  -- A key is present exactly when a lookup finds it.
  pub mem-keys-lookup : (k : Str) (m : Map V) → mem k (keys m) ≡ is_some (lookup k m)
  unfolding mem keys lookup
  mem-keys-lookup k [] = refl
  mem-keys-lookup k ((i, w) ∷ m) = ground (arith, mem-keys-lookup k m)

module _ {ℓ κ} {V : Type ℓ} (P : Str × V → Type κ) where
  -- What holds of every entry and of the new one holds after a write.
  pub All-insert : (k : Str) (v : V) (m : Map V) → P (k, v) → All P m → All P (insert k v m)
  unfolding insert
  All-insert k v [] p h = (p, tt)
  All-insert k v ((i, w) ∷ m) p h = elim (Bool-cases (str_eq i k)) [
    | inl same ↦ rw same (p, h.1)
    | inr other ↦ rw other (h.0, All-insert k v m p h.1)
  ]

  -- What holds of every entry holds of one that is found.
  pub All-lookup : (k : Str) (v : V) (m : Map V) → All P m → lookup k m ≡ some v → P (k, v)
  unfolding lookup
  All-lookup k v [] h e = absurd (ground arith)
  All-lookup k v ((i, w) ∷ m) h e = elim (Bool-cases (str_eq i k)) [
    | inl same ↦
        let at_k : i ≡ k = (str_eq_iff i k).0 same in
        let it_is : w ≡ v = ground arith in subst₂ (λ j t. P (j, t)) at_k it_is h.0
    | inr other ↦ All-lookup k v m h.1 (rw other at e)
  ]
