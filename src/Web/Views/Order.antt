-- ===== src/Web/Views/Order.antt =====
-- sort.Strings gives the same members in ascending order.
use toyotaview.Common.{
  true, false, ◌||◌, List, [], ◌∷◌, Str, str_lt, str_eq, str_eq_iff, str_lt_trans, str_lt_total,
  mem, IsDistinct, Bool-cases, ◌≡◌, refl, ◌∙◌, inl, inr, arith,
}
use toyotaview.Web.Views.{insert_code, sort_strings}

-- A string lies strictly below all of these.
abbrev pub Below : Str → List Str → Type 0
Below k [] = Unit
Below k (c ∷ cs) = (str_lt k c ≡ true) × Below k cs

abbrev pub Ascending : List Str → Type 0
Ascending [] = Unit
Ascending (c ∷ cs) = Below c cs × Ascending cs

Below-trans : (j k : Str) (cs : List Str) → str_lt j k ≡ true → Below k cs → Below j cs
Below-trans j k [] h b = tt
Below-trans j k (c ∷ cs) h b = (str_lt_trans j k c h b.0, Below-trans j k cs h b.1)

Below-insert_code :
    (k s : Str) (cs : List Str) → str_lt k s ≡ true → Below k cs → Below k (insert_code s cs)
unfolding insert_code
Below-insert_code k s [] h b = (h, tt)
Below-insert_code k s (c ∷ cs) h b = ground (arith, Below-insert_code k s cs)

mem-insert_code : (k s : Str) (cs : List Str) → mem k (insert_code s cs) ≡ (str_eq s k || mem k cs)
unfolding insert_code mem
mem-insert_code k s [] = refl
mem-insert_code k s (c ∷ cs) = ground (arith, mem-insert_code k s cs)

pub mem-sort_strings : (k : Str) (cs : List Str) → mem k (sort_strings cs) ≡ mem k cs
unfolding sort_strings mem
mem-sort_strings k [] = refl
mem-sort_strings k (c ∷ cs) =
    ground (arith, mem-insert_code k c (sort_strings cs), mem-sort_strings k cs)

Ascending-insert_code :
    (s : Str) (cs : List Str) → mem s cs ≡ false → Ascending cs → Ascending (insert_code s cs)
unfolding insert_code mem
Ascending-insert_code s [] h a = (tt, tt)
Ascending-insert_code s (c ∷ cs) h a = elim (Bool-cases (str_lt c s)) [
  | inl below ↦
      rw below (Below-insert_code c s cs below a.0, Ascending-insert_code s cs (ground arith) a.1)
  | inr not_below ↦ elim (Bool-cases (str_lt s c)) [
    | inl above ↦ rw not_below ((above, Below-trans s c cs above a.0), a)
    | inr neither ↦ absurd (ground (arith, str_lt_total c s not_below neither, str_eq_iff c s))
  ]
]

-- Distinct strings are sorted into a strictly ascending list.
pub sort_strings-Ascending : (cs : List Str) → IsDistinct cs → Ascending (sort_strings cs)
unfolding sort_strings
sort_strings-Ascending [] h = tt
sort_strings-Ascending (c ∷ cs) h =
    Ascending-insert_code c (sort_strings cs) (mem-sort_strings c cs ∙ h.0)
      (sort_strings-Ascending cs h.1)
