-- ===== src/App/Select/Laws.antt =====
-- What filterConnections selects.
use toyotaview.Common.{
  true, false, ◌||◌, ◌&&◌, List, [], ◌∷◌, Str, str_lt, str_eq, str_eq_iff, mem, is_empty, ◌≡◌, refl,
  ap, ◌∙◌, arith, All, Bool-cases, inl, inr, str_lt_total, str_lt_irrefl, str_lt_trans,
}
use toyotaview.Smartcar.Models.{Connection}
use toyotaview.App.Types.{Service}
use toyotaview.App.Select.{
  insert_connection, sort_connections, keep_allowed, filter_connections, is_connected,
}

abbrev pub IsAllowed : List Str → Connection → Type 0
IsAllowed allowed c = mem c.vehicle_id allowed ≡ true

-- No later connection lies below an earlier one.
abbrev NotAbove : Str → List Connection → Type 0
NotAbove k [] = Unit
NotAbove k (d ∷ ds) = (str_lt d.vehicle_id k ≡ false) × NotAbove k ds

abbrev pub IsSorted : List Connection → Type 0
IsSorted [] = Unit
IsSorted (c ∷ cs) = NotAbove c.vehicle_id cs × IsSorted cs

keep_allowed-IsAllowed :
    (allowed : List Str) (cs : List Connection) → All (IsAllowed allowed) (keep_allowed allowed cs)
unfolding keep_allowed
keep_allowed-IsAllowed allowed [] = tt
keep_allowed-IsAllowed allowed (c ∷ cs) = elim (Bool-cases (mem c.vehicle_id allowed)) [
  | inl kept ↦ rw kept (kept, keep_allowed-IsAllowed allowed cs)
  | inr dropped ↦ rw dropped (keep_allowed-IsAllowed allowed cs)
]

insert-IsAllowed :
    (allowed : List Str) (c : Connection) (cs : List Connection)
    → IsAllowed allowed c
    → All (IsAllowed allowed) cs
    → All (IsAllowed allowed) (insert_connection c cs)
unfolding insert_connection
insert-IsAllowed allowed c [] h k = (h, tt)
insert-IsAllowed allowed c (d ∷ ds) h k = ground (arith, insert-IsAllowed allowed c ds)

sort-IsAllowed :
    (allowed : List Str) (cs : List Connection)
    → All (IsAllowed allowed) cs
    → All (IsAllowed allowed) (sort_connections cs)
unfolding sort_connections
sort-IsAllowed allowed [] h = tt
sort-IsAllowed allowed (c ∷ cs) h =
    insert-IsAllowed allowed c (sort_connections cs) h.0 (sort-IsAllowed allowed cs h.1)

is_connected-insert :
    (k : Str) (c : Connection) (cs : List Connection)
    → is_connected k (insert_connection c cs) ≡ (str_eq c.vehicle_id k || is_connected k cs)
unfolding is_connected insert_connection
is_connected-insert k c [] = refl
is_connected-insert k c (d ∷ ds) = ground (arith, is_connected-insert k c ds)

is_connected-sort :
    (k : Str) (cs : List Connection) → is_connected k (sort_connections cs) ≡ is_connected k cs
unfolding is_connected sort_connections
is_connected-sort k [] = refl
is_connected-sort k (c ∷ cs) =
    is_connected-insert k c (sort_connections cs)
    ∙ ap (λ b. str_eq c.vehicle_id k || b) (is_connected-sort k cs)

is_connected-keep :
    (k : Str) (allowed : List Str) (cs : List Connection)
    → is_connected k (keep_allowed allowed cs) ≡ (mem k allowed && is_connected k cs)
unfolding is_connected keep_allowed
is_connected-keep k allowed [] = ground arith
is_connected-keep k allowed (c ∷ cs) = elim (Bool-cases (str_eq c.vehicle_id k)) [
  | inl same ↦
      let moved : mem c.vehicle_id allowed ≡ mem k allowed =
        ap (λ j. mem j allowed) ((str_eq_iff c.vehicle_id k).0 same) in
      ground (arith, moved, is_connected-keep k allowed cs)
  | inr other ↦ ground (arith, is_connected-keep k allowed cs)
]

NotAbove-insert :
    (k : Str) (c : Connection) (cs : List Connection)
    → str_lt c.vehicle_id k ≡ false
    → NotAbove k cs
    → NotAbove k (insert_connection c cs)
unfolding insert_connection
NotAbove-insert k c [] h n = (h, tt)
NotAbove-insert k c (d ∷ ds) h n = ground (arith, NotAbove-insert k c ds)

str_lt_asymm : (s t : Str) → str_lt s t ≡ true → str_lt t s ≡ false
str_lt_asymm s t h = elim (Bool-cases (str_lt t s)) [
  | inr ge ↦ ge
  | inl lt ↦ absurd (cc (str_lt_trans s t s h lt, str_lt_irrefl s))
]

-- Not below, and not below again, is not below.
not_lt_trans : (s t u : Str) → str_lt t s ≡ false → str_lt u t ≡ false → str_lt u s ≡ false
not_lt_trans s t u h k = elim (Bool-cases (str_lt u s)) [
  | inr ge ↦ ge
  | inl lt ↦ elim (Bool-cases (str_lt s t)) [
    | inl below ↦ absurd (cc (str_lt_trans u s t lt below, k))
    | inr equal ↦ absurd (cc (str_lt_total s t equal h, lt, k))
  ]
]

NotAbove-trans :
    (j k : Str) (cs : List Connection) → str_lt k j ≡ false → NotAbove k cs → NotAbove j cs
NotAbove-trans j k [] h n = tt
NotAbove-trans j k (d ∷ ds) h n = (not_lt_trans j k d.vehicle_id h n.0, NotAbove-trans j k ds h n.1)

insert-IsSorted :
    (c : Connection) (cs : List Connection) → IsSorted cs → IsSorted (insert_connection c cs)
unfolding insert_connection
insert-IsSorted c [] h = (tt, tt)
insert-IsSorted c (d ∷ ds) h = elim (Bool-cases (str_lt d.vehicle_id c.vehicle_id)) [
  | inl below ↦ rw below (
    NotAbove-insert d.vehicle_id c ds (str_lt_asymm d.vehicle_id c.vehicle_id below) h.0,
    insert-IsSorted c ds h.1,
  )
  | inr not_below ↦
      rw not_below ((not_below, NotAbove-trans c.vehicle_id d.vehicle_id ds not_below h.0), h)
]

sort-IsSorted : (cs : List Connection) → IsSorted (sort_connections cs)
unfolding sort_connections
sort-IsSorted [] = tt
sort-IsSorted (c ∷ cs) = insert-IsSorted c (sort_connections cs) (sort-IsSorted cs)

-- With an allowlist, the selected connections are those of allowed vehicles: each is allowed, a
-- vehicle is selected exactly when it is connected and allowed, and they are ordered by the
-- vehicle's identifier.
pub filter_connections_lem :
    (s : Service) (cs : List Connection)
    → is_empty s.allowed_vehicle_ids ≡ false
    → All (IsAllowed s.allowed_vehicle_ids) (filter_connections s cs)
      × ((k : Str)
          → is_connected k (filter_connections s cs)
            ≡ (mem k s.allowed_vehicle_ids && is_connected k cs))
      × IsSorted (filter_connections s cs)
unfolding filter_connections
filter_connections_lem s cs closed =
    let allowed = s.allowed_vehicle_ids in
    rw closed (
      sort-IsAllowed allowed (keep_allowed allowed cs) (keep_allowed-IsAllowed allowed cs),
      λ k. is_connected-sort k (keep_allowed allowed cs) ∙ is_connected-keep k allowed cs,
      sort-IsSorted (keep_allowed allowed cs),
    )
