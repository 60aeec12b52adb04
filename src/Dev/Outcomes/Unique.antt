-- ===== src/Dev/Outcomes/Unique.antt =====
-- What uniqueSignalCodes of internal/devsmartcar/devsmartcar.go keeps: the trimmed codes that are not
-- blank.
use toyotaview.Common.{
  true, false, ◌||◌, none, some, List, [], ◌∷◌, Str, str_eq, str_eq_iff, str_eq_refl, is_empty, mem,
  Bool-cases, ◌≡◌, refl, sym, ap, ◌∙◌, ◌⊎◌, inl, inr, arith,
}
use toyotaview.Common.Text.{trim_space}
use toyotaview.Dev.Outcomes.{fresh_code, unique_codes, unique_signal_codes}

-- A code that is not blank and is one of these, once they are trimmed.
abbrev pub IsCodeOf : List Str → Str → Type 0
IsCodeOf signal_codes a =
    (c : Str) × (mem c signal_codes ≡ true) × (trim_space c ≡ a) × (is_empty a ≡ false)

IsCodeOf-cons : (c a : Str) (codes : List Str) → IsCodeOf codes a → IsCodeOf (c ∷ codes) a
unfolding mem
IsCodeOf-cons c a codes (d, listed, trimmed, shown) = (d, ground (arith, listed), trimmed, shown)

fresh_code_cases :
    (seen : List Str) (c : Str)
    → ((fresh_code seen c ≡ none)
        × ((is_empty (trim_space c) ≡ true) ⊎ (mem (trim_space c) seen ≡ true)))
      ⊎ ((fresh_code seen c ≡ some (trim_space c)) × (is_empty (trim_space c) ≡ false))
unfolding fresh_code
fresh_code_cases seen c = elim (Bool-cases (is_empty (trim_space c))) [
  | inl blank ↦ rw blank (inl (refl, inl refl))
  | inr shown ↦ elim (Bool-cases (mem (trim_space c) seen)) [
    | inl known ↦ rw (shown, known) (inl (refl, inr refl))
    | inr new ↦ rw (shown, new) (inr (refl, refl))
  ]
]

IsCodeOf-unique_codes :
    (seen codes : List Str) (a : Str) → mem a (unique_codes seen codes) ≡ true → IsCodeOf codes a
unfolding unique_codes mem
IsCodeOf-unique_codes seen [] a h = absurd (cc h)
IsCodeOf-unique_codes seen (c ∷ codes) a h = elim (fresh_code_cases seen c) [
  | inl (dropped, why) ↦
      IsCodeOf-cons c a codes (IsCodeOf-unique_codes seen codes a (rw (unique_codes, dropped) at h))
  | inr (kept, shown) ↦
      let listed : (str_eq (trim_space c) a || mem a (unique_codes (trim_space c ∷ seen) codes))
          ≡ true =
        rw (unique_codes, kept) at h in
      elim (Bool-cases (str_eq (trim_space c) a)) [
        | inl same ↦
            let equal = (str_eq_iff (trim_space c) a).0 same in
            (c, rw (str_eq_refl c) refl, equal, ap is_empty (sym equal) ∙ shown)
        | inr other ↦
            IsCodeOf-cons c a codes
              (IsCodeOf-unique_codes (trim_space c ∷ seen) codes a (rw other at listed))
      ]
]

mem-unique_codes :
    (seen codes : List Str) (c : Str)
    → mem c codes ≡ true
    → is_empty (trim_space c) ≡ false
    → (mem (trim_space c) seen || mem (trim_space c) (unique_codes seen codes)) ≡ true
unfolding unique_codes mem
mem-unique_codes seen [] c h shown = absurd (cc h)
mem-unique_codes seen (d ∷ codes) c h shown = elim (fresh_code_cases seen d) [
  | inl (dropped, why) ↦ elim (Bool-cases (str_eq d c)) [
    | inl same ↦
        let equal : d ≡ c = (str_eq_iff d c).0 same in
        elim why [
          | inl blank ↦ absurd (cc (blank, shown, equal))
          | inr known ↦
              let seen_too : mem (trim_space c) seen ≡ true =
                ap (λ x. mem (trim_space x) seen) (sym equal) ∙ known in
              rw seen_too refl
        ]
    | inr other ↦ rw (unique_codes, dropped) (mem-unique_codes seen codes c (rw other at h) shown)
  ]
  | inr (kept, full) ↦ elim (Bool-cases (str_eq d c)) [
    | inl same ↦
        let equal : str_eq (trim_space d) (trim_space c) ≡ true =
          ap (λ x. str_eq (trim_space x) (trim_space c)) ((str_eq_iff d c).0 same)
          ∙ str_eq_refl (trim_space c) in
        rw (unique_codes, kept) (ground (arith, equal))
    | inr other ↦
        let rest = mem-unique_codes (trim_space d ∷ seen) codes c (rw other at h) shown in
        rw (unique_codes, kept) (ground (arith, rest))
  ]
]

module _ (signal_codes : List Str) where
  pub IsCodeOf-unique_signal_codes :
      (a : Str) → mem a (unique_signal_codes signal_codes) ≡ true → IsCodeOf signal_codes a
  unfolding unique_signal_codes
  IsCodeOf-unique_signal_codes a h = IsCodeOf-unique_codes [] signal_codes a h

  pub mem-unique_signal_codes :
      (c : Str)
      → mem c signal_codes ≡ true
      → is_empty (trim_space c) ≡ false
      → mem (trim_space c) (unique_signal_codes signal_codes) ≡ true
  unfolding unique_signal_codes mem
  mem-unique_signal_codes c listed shown = mem-unique_codes [] signal_codes c listed shown
