-- ===== src/Web/Views/Laws.antt =====
-- What the page of a vehicle shows of its signals.
use toyotaview.Common.{
  true, Option, none, some, List, [], ◌∷◌, map, Str, str_eq, str_eq_iff, str_eq_refl, mem, keys,
  Map, lookup, is_some, mem-keys-lookup, IsDistinct, GoError, if◌then◌else◌, Bool-cases,
  Option-cases, ◌≡◌, refl, sym, ap, ◌∙◌, subst, inl, inr, arith,
}
use toyotaview.Smartcar.Models.{SignalSnapshot, VehicleSnapshot}
use toyotaview.Web.Views.{
  Printer, SignalView, signal_view, signal_views, sort_strings, sorted_signal_codes, vehicle_page,
}
use toyotaview.Web.Views.Order.{Ascending, mem-sort_strings, sort_strings-Ascending}

abbrev pub codes_of : List SignalView → List Str
codes_of views = map (λ v. v.code) views

-- The row of a page with a code.
unfoldable pub find_view : Str → List SignalView → Option SignalView
find_view k [] = none
find_view k (v ∷ vs) = if str_eq v.code k then some v else find_view k vs

module _ (printer : Printer) where
  -- The row that a signal of the snapshot should have.
  unfoldable pub expected_view : Str → Option SignalSnapshot → Option SignalView
  expected_view k none = none
  expected_view k (some s) = some (signal_view printer k s)

  find-signal_views :
      (k : Str) (m : Map SignalSnapshot) (codes : List Str)
      → find_view k (signal_views printer m codes)
        ≡ (if mem k codes then expected_view k (lookup k m) else none)
  unfolding signal_views find_view mem signal_view expected_view
  find-signal_views k m [] = refl
  find-signal_views k m (code ∷ codes) = elim (Option-cases (lookup code m)) [
    | inl missing ↦ elim (Bool-cases (str_eq code k)) [
      | inl same ↦
          let gone : lookup k m ≡ none =
            subst (λ j. lookup j m ≡ none) ((str_eq_iff code k).0 same) missing in
          rw (missing, signal_views) (ground (arith, find-signal_views k m codes))
      | inr other ↦ rw (missing, signal_views, other) (find-signal_views k m codes)
    ]
    | inr (s, found) ↦ elim (Bool-cases (str_eq code k)) [
      | inl same ↦
          let e : code ≡ k = (str_eq_iff code k).0 same in
          let there : lookup k m ≡ some s = subst (λ j. lookup j m ≡ some s) e found in
          rw (found, signal_views, same, there) (rw e refl)
      | inr other ↦ rw (found, signal_views, other) (find-signal_views k m codes)
    ]
  ]

  later : (code k : Str) (codes : List Str) → mem k codes ≡ true → mem k (code ∷ codes) ≡ true
  unfolding mem
  later code k codes h = ground arith

  missing_code :
      (code : Str) (codes : List Str) (m : Map SignalSnapshot)
      → (mem code (code ∷ codes) ≡ true → is_some (lookup code m) ≡ true)
      → lookup code m ≡ none
      → ⊥
  unfolding mem
  missing_code code codes m h missing = cc (h (ground (arith, str_eq_refl code)), missing)

  codes_of-signal_views :
      (m : Map SignalSnapshot) (codes : List Str)
      → ((k : Str) → mem k codes ≡ true → is_some (lookup k m) ≡ true)
      → codes_of (signal_views printer m codes) ≡ codes
  unfolding signal_views mem signal_view
  codes_of-signal_views m [] h = refl
  codes_of-signal_views m (code ∷ codes) h = elim (Option-cases (lookup code m)) [
    | inl missing ↦ absurd (missing_code code codes m (h code) missing)
    | inr (s, found) ↦
        rw (found, signal_views)
          (ap (◌∷◌ code)
            (codes_of-signal_views m codes (λ k present. h k (later code k codes present))))
  ]

  shown :
      (k : Str) (m : Map SignalSnapshot) (codes : List Str)
      → mem k codes ≡ is_some (lookup k m)
      → (if mem k codes then expected_view k (lookup k m) else none) ≡ expected_view k (lookup k m)
  unfolding expected_view
  shown k m codes h = elim (Option-cases (lookup k m)) [
    | inl gone ↦ rw (h, gone) refl
    | inr (s, there) ↦ rw (h, there) refl
  ]

  -- The page of a vehicle whose signals are a map has one row for each signal and no other, in
  -- ascending order of the codes, and the row of a code shows the signal at that code.
  pub vehicle_page-signals :
      (s : VehicleSnapshot) (e : Option GoError)
      → IsDistinct (keys s.signals)
      → Ascending (codes_of (vehicle_page printer s e).signals)
        × ((k : Str)
            → find_view k (vehicle_page printer s e).signals ≡ expected_view k (lookup k s.signals))
  unfolding vehicle_page sorted_signal_codes
  vehicle_page-signals s e distinct =
      let codes = sort_strings (keys s.signals) in
      let present = λ (k : Str) (h : mem k codes ≡ true).
        sym (mem-keys-lookup k s.signals) ∙ (sym (mem-sort_strings k (keys s.signals)) ∙ h) in
      (
        rw (codes_of-signal_views s.signals codes present)
            (sort_strings-Ascending (keys s.signals) distinct),
        λ k.
            find-signal_views k s.signals codes
            ∙ shown k s.signals codes
                (mem-sort_strings k (keys s.signals) ∙ mem-keys-lookup k s.signals),
      )
