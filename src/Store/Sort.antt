-- ===== src/Store/Sort.antt =====
-- sort.Slice by `Vehicle.ID`, as an insertion sort: on distinct identifiers every sort gives the
-- same list.
use toyotaview.Common.{
  Bool, true, false, List, [], ◌∷◌, Str, str_lt, str_eq, str_eq_iff, str_lt_trans, str_lt_total,
  if◌then◌else◌, ◌≡◌, refl, ap, arith, mem, IsDistinct, map, ◌||◌, ◌∙◌, Option, none, some,
  str_eq_refl, str_lt_irrefl, sym, ap₂, inl, inr, Bool-cases,
}
use toyotaview.Smartcar.Models.{VehicleSnapshot}

abbrev pub id_of : VehicleSnapshot → Str
id_of s = s.vehicle.id

-- Puts a snapshot before the first one that is not below it.
unfoldable pub insert_by_id : VehicleSnapshot → List VehicleSnapshot → List VehicleSnapshot
insert_by_id s [] = s ∷ []
insert_by_id s (t ∷ ts) = if str_lt (id_of t) (id_of s) then t ∷ insert_by_id s ts else s ∷ t ∷ ts

unfoldable pub sort_by_id : List VehicleSnapshot → List VehicleSnapshot
unfolding insert_by_id
sort_by_id [] = []
sort_by_id (s ∷ ss) = insert_by_id s (sort_by_id ss)

-- Each identifier lies strictly below all that follow.
abbrev pub Below : Str → List VehicleSnapshot → Type 0
Below k [] = Unit
Below k (t ∷ ts) = (str_lt k (id_of t) ≡ true) × Below k ts

abbrev pub Ascending : List VehicleSnapshot → Type 0
Ascending [] = Unit
Ascending (t ∷ ts) = Below (id_of t) ts × Ascending ts

abbrev pub ids : List VehicleSnapshot → List Str
ids ss = map id_of ss

Below-trans : (j k : Str) (ts : List VehicleSnapshot) → str_lt j k ≡ true → Below k ts → Below j ts
Below-trans j k [] h b = tt
Below-trans j k (t ∷ ts) h b = (str_lt_trans j k (id_of t) h b.0, Below-trans j k ts h b.1)

Below-insert :
    (k : Str) (s : VehicleSnapshot) (ts : List VehicleSnapshot)
    → str_lt k (id_of s) ≡ true
    → Below k ts
    → Below k (insert_by_id s ts)
unfolding insert_by_id
Below-insert k s [] h b = (h, tt)
Below-insert k s (t ∷ ts) h b = ground (arith, Below-insert k s ts)

mem-insert_by_id :
    (k : Str) (s : VehicleSnapshot) (ts : List VehicleSnapshot)
    → mem k (ids (insert_by_id s ts)) ≡ (str_eq (id_of s) k || mem k (ids ts))
unfolding insert_by_id mem
mem-insert_by_id k s [] = refl
mem-insert_by_id k s (t ∷ ts) = ground (arith, mem-insert_by_id k s ts)

pub mem-sort_by_id :
    (k : Str) (ss : List VehicleSnapshot) → mem k (ids (sort_by_id ss)) ≡ mem k (ids ss)
unfolding sort_by_id mem
mem-sort_by_id k [] = refl
mem-sort_by_id k (s ∷ ss) =
    ground (arith, mem-insert_by_id k s (sort_by_id ss), mem-sort_by_id k ss)

or-false-right : (a b : Bool) → (a || b) ≡ false → b ≡ false
or-false-right a b h = ground arith

lt_of_not_lt :
    (s t : VehicleSnapshot)
    → str_lt (id_of t) (id_of s) ≡ false
    → str_eq (id_of t) (id_of s) ≡ false
    → str_lt (id_of s) (id_of t) ≡ true
lt_of_not_lt s t h ne = elim (Bool-cases (str_lt (id_of s) (id_of t))) [
  | inl lt ↦ lt
  | inr ge ↦ ground (arith, str_lt_total (id_of t) (id_of s) h ge, str_eq_iff (id_of t) (id_of s))
]

Ascending-insert :
    (s : VehicleSnapshot) (ts : List VehicleSnapshot)
    → mem (id_of s) (ids ts) ≡ false
    → Ascending ts
    → Ascending (insert_by_id s ts)
unfolding insert_by_id mem
Ascending-insert s [] h a = (tt, tt)
Ascending-insert s (t ∷ ts) h a = elim (Bool-cases (str_lt (id_of t) (id_of s))) [
  | inl below ↦
      rw below
        (Below-insert (id_of t) s ts below a.0, Ascending-insert s ts (or-false-right _ _ h) a.1)
  | inr not_below ↦
      let above : str_lt (id_of s) (id_of t) ≡ true = lt_of_not_lt s t not_below (ground arith) in
      rw not_below ((above, Below-trans (id_of s) (id_of t) ts above a.0), a)
]

-- On distinct identifiers the sorted list ascends strictly.
pub sort_by_id-Ascending :
    (ss : List VehicleSnapshot) → IsDistinct (ids ss) → Ascending (sort_by_id ss)
unfolding sort_by_id
sort_by_id-Ascending [] h = tt
sort_by_id-Ascending (s ∷ ss) h =
    Ascending-insert s (sort_by_id ss) (mem-sort_by_id (id_of s) ss ∙ h.0)
      (sort_by_id-Ascending ss h.1)

-- The first snapshot with an identifier.
unfoldable pub find_by_id : Str → List VehicleSnapshot → Option VehicleSnapshot
find_by_id k [] = none
find_by_id k (t ∷ ts) = if str_eq (id_of t) k then some t else find_by_id k ts

find-insert_by_id :
    (k : Str) (s : VehicleSnapshot) (ts : List VehicleSnapshot)
    → mem (id_of s) (ids ts) ≡ false
    → find_by_id k (insert_by_id s ts) ≡ (if str_eq (id_of s) k then some s else find_by_id k ts)
unfolding insert_by_id find_by_id mem
find-insert_by_id k s [] h = refl
find-insert_by_id k s (t ∷ ts) h = ground (
  arith,
  find-insert_by_id k s ts,
  str_eq_iff (id_of s) k,
  str_eq_iff (id_of t) k,
  str_eq_iff (id_of t) (id_of s),
)

pub find-sort_by_id :
    (k : Str) (ss : List VehicleSnapshot)
    → IsDistinct (ids ss)
    → find_by_id k (sort_by_id ss) ≡ find_by_id k ss
unfolding sort_by_id find_by_id
find-sort_by_id k [] h = refl
find-sort_by_id k (s ∷ ss) h = ground (
  arith,
  find-insert_by_id k s (sort_by_id ss),
  mem-sort_by_id (id_of s) ss,
  find-sort_by_id k ss,
)

-- Above every identifier there is nothing at the identifier.
find-Below : (k : Str) (ts : List VehicleSnapshot) → Below k ts → find_by_id k ts ≡ none
unfolding find_by_id
find-Below k [] b = refl
find-Below k (t ∷ ts) b = ground (arith, find-Below k ts, str_eq_iff (id_of t) k, str_lt_irrefl k)

find-head :
    (t : VehicleSnapshot) (ts : List VehicleSnapshot) → find_by_id (id_of t) (t ∷ ts) ≡ some t
unfolding find_by_id
find-head t ts = ground (arith, str_eq_refl (id_of t))

abbrev SameFinds : List VehicleSnapshot → List VehicleSnapshot → Type 0
SameFinds ts us = (k : Str) → find_by_id k ts ≡ find_by_id k us

-- A first identifier below another first identifier is not found in the other list.
no_smaller_head :
    (t u : VehicleSnapshot) (ts us : List VehicleSnapshot)
    → Below (id_of u) us
    → find_by_id (id_of t) (t ∷ ts) ≡ find_by_id (id_of t) (u ∷ us)
    → str_lt (id_of t) (id_of u) ≡ false
no_smaller_head t u ts us b same = elim (Bool-cases (str_lt (id_of t) (id_of u))) [
  | inr ge ↦ ge
  | inl lt ↦ cc (
    same,
    find-head t ts,
    find-Below (id_of t) (u ∷ us) (lt, Below-trans (id_of t) (id_of u) us lt b),
  )
]

SameFinds-tail :
    (t : VehicleSnapshot) (ts us : List VehicleSnapshot)
    → Below (id_of t) ts
    → Below (id_of t) us
    → SameFinds (t ∷ ts) (t ∷ us)
    → SameFinds ts us
unfolding find_by_id
SameFinds-tail t ts us b c same k =
    ground
      (arith, same k, str_eq_iff (id_of t) k, find-Below (id_of t) ts b, find-Below (id_of t) us c)

find-nil : (k : Str) → find_by_id k [] ≡ none
unfolding find_by_id
find-nil k = refl

head_unique :
    (t u : VehicleSnapshot) (ts us : List VehicleSnapshot)
    → id_of t ≡ id_of u
    → find_by_id (id_of t) (t ∷ ts) ≡ find_by_id (id_of t) (u ∷ us)
    → t ≡ u
head_unique t u ts us e same =
    let found : find_by_id (id_of t) (u ∷ us) ≡ some u = rw e (find-head u us) in
    cc (same, find-head t ts, found)

-- A strictly ascending list is determined by what is found in it.
pub Ascending-unique :
    (ts us : List VehicleSnapshot) → Ascending ts → Ascending us → SameFinds ts us → ts ≡ us
Ascending-unique [] [] a b same = refl
Ascending-unique [] (u ∷ us) a b same = cc (same (id_of u), find-head u us, find-nil (id_of u))
Ascending-unique (t ∷ ts) [] a b same = cc (same (id_of t), find-head t ts, find-nil (id_of t))
Ascending-unique (t ∷ ts) (u ∷ us) a b same =
    let e : id_of t ≡ id_of u =
      str_lt_total (id_of t) (id_of u) (no_smaller_head t u ts us b.0 (same (id_of t)))
        (no_smaller_head u t us ts a.0 (sym (same (id_of u)))) in
    let heads : t ≡ u = head_unique t u ts us e (same (id_of t)) in
    let tails : ts ≡ us = Ascending-unique ts us a.1 b.1 (
      SameFinds-tail t ts us a.0 (rw e b.0)
        (λ k. same k ∙ ap (λ x. find_by_id k (x ∷ us)) (sym heads))) in
    ap₂ (λ x xs. x ∷ xs) heads tails
