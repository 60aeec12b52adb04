-- ===== src/App/Names.antt =====
-- humanize, groupOf and titleWord of internal/app/app.go: the names of signals that failed.
use toyotaview.Common.{
  true, false, [], ◌∷◌, ◌++◌, map, Str, str, is_empty, ◌≡◌, refl, ◌↔◌, Bool-cases, inl, inr,
}
use toyotaview.Common.Text.{split, first_part, join, to_upper_one}
use toyotaview.Smartcar.Names
use toyotaview.Smartcar.Names.{signal_group_from_code}

unfoldable pub title_word : Str → Str
title_word [] = []
title_word (c ∷ s) = to_upper_one c ++ s

unfoldable pub humanize : Str → Str
humanize code = join b' ' (map title_word (split b'-' code))

unfoldable pub group_of : Str → Str
group_of code = title_word (first_part b'-' code)

title_word-eq : (s : Str) → title_word s ≡ Names.title_word s
unfolding title_word Names.title_word
title_word-eq [] = refl
title_word-eq (c ∷ s) = refl

title_word-ne-signal : (p : Str) → is_empty p ≡ true → title_word p ≡ str "Signal" → ⊥
unfolding title_word
title_word-ne-signal [] h e = cc e
title_word-ne-signal (c ∷ p) h e = cc h

-- A signal that failed is filed under the group that it would have if it had been read exactly
-- when its code does not begin with a dash and is not empty; else the group is empty here, and
-- "Signal" there.
pub group_of-eq_iff :
    (code : Str)
    → (group_of code ≡ signal_group_from_code code) ↔ (is_empty (first_part b'-' code) ≡ false)
unfolding group_of signal_group_from_code
group_of-eq_iff code = elim (Bool-cases (is_empty (first_part b'-' code))) [
  | inl empty ↦ (
    λ e. absurd (title_word-ne-signal (first_part b'-' code) empty (rw empty at e)),
    λ full. absurd (cc (empty, full)),
  )
  | inr full ↦ (λ _. full, λ _. rw full (title_word-eq (first_part b'-' code)))
]
