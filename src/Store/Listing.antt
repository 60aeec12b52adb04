-- ===== src/Store/Listing.antt =====
-- `List`: a sorted view of the cache that does not depend on the order of the map.
use toyotaview.Common.{
  [], ◌∷◌, map, Str, Map, lookup, keys, values, IsDistinct, ◌≡◌, refl, ap, ◌∙◌, sym, arith, All,
}
use toyotaview.Smartcar.Models.{VehicleSnapshot}
use toyotaview.Store.{MemoryStore, clone_vehicle_snapshot, list}
use toyotaview.Store.Sort.{
  ids, find_by_id, sort_by_id, Ascending, Ascending-unique, sort_by_id-Ascending, find-sort_by_id,
}
use toyotaview.Store.Laws.{IsEntry, IsCache, cached, clone_vehicle_snapshot-eq}

map-clone-values :
    (m : Map VehicleSnapshot) → All IsEntry m → map clone_vehicle_snapshot (values m) ≡ values m
unfolding values
map-clone-values [] h = refl
map-clone-values ((k, s) ∷ m) h =
    rw (clone_vehicle_snapshot-eq s h.0.1) (ap (λ ss. s ∷ ss) (map-clone-values m h.1))

ids-values : (m : Map VehicleSnapshot) → All IsEntry m → ids (values m) ≡ keys m
unfolding values keys
ids-values [] h = refl
ids-values ((k, s) ∷ m) h = rw (h.0.0, ids-values m h.1)

find-values :
    (k : Str) (m : Map VehicleSnapshot) → All IsEntry m → find_by_id k (values m) ≡ lookup k m
unfolding values lookup find_by_id
find-values k [] h = refl
find-values k ((i, s) ∷ m) h = rw (h.0.0) (ground (arith, find-values k m h.1))

list-eq : (m : MemoryStore) → IsCache m → list m ≡ sort_by_id (values m.vehicles)
unfolding list
list-eq m c = rw (map-clone-values m.vehicles c.entries)

values-IsDistinct : (m : MemoryStore) → IsCache m → IsDistinct (ids (values m.vehicles))
values-IsDistinct m c = rw (ids-values m.vehicles c.entries) c.distinct

-- The identifiers of the list of a well-formed cache ascend strictly, so none stands twice.
pub list-Ascending : (m : MemoryStore) → IsCache m → Ascending (list m)
list-Ascending m c =
    rw (list-eq m c) (sort_by_id-Ascending (values m.vehicles) (values-IsDistinct m c))

-- The list of a well-formed cache holds, at each identifier, exactly what the cache holds.
pub find-list : (m : MemoryStore) (k : Str) → IsCache m → find_by_id k (list m) ≡ cached m k
find-list m k c = rw (list-eq m c) (
    find-sort_by_id k (values m.vehicles) (values-IsDistinct m c)
    ∙ find-values k m.vehicles c.entries)

-- List of a well-formed cache is strictly ordered by the identifier, and holds at each identifier
-- exactly what the cache holds.
pub list_lem :
    (m : MemoryStore)
    → IsCache m
    → Ascending (list m) × ((k : Str) → find_by_id k (list m) ≡ cached m k)
list_lem m c = (list-Ascending m c, λ k. find-list m k c)

-- Two well-formed caches that hold the same at every identifier have the same list, in whatever order their
-- maps are iterated.
pub list_unique :
    (m n : MemoryStore)
    → IsCache m
    → IsCache n
    → ((k : Str) → cached m k ≡ cached n k)
    → list m ≡ list n
list_unique m n c d same =
    Ascending-unique (list m) (list n) (list-Ascending m c) (list-Ascending n d)
      (λ k. find-list m k c ∙ same k ∙ sym (find-list n k d))
