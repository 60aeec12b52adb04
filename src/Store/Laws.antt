-- ===== src/Store/Laws.antt =====
-- The cache as a finite map: invariant, reads after writes, and the order of `List`.
use toyotaview.Common.{
  All-insert, All-lookup, true, false, Option, none, some, List, [], ◌∷◌, Str, str_eq, str_eq_iff,
  str_eq_refl, Map, lookup, insert, keys, mem, IsDistinct, IsDistinct-insert, lookup-insert,
  GoError, if◌then◌else◌, ◌≡◌, refl, ap, ◌∙◌, sym, arith, ◌++◌, All, Option-cases, inl, inr,
}
use mathlib.Core.List.{append-nil, append_assoc}
use toyotaview.Smartcar.Models.{SignalSnapshot, VehicleSnapshot, zero_snapshot}
use toyotaview.Store.{
  MemoryStore, new_memory_store, clone_bytes, clone_signals, clone_vehicle_snapshot, save,
  save_many, get, set_last_error,
}
use toyotaview.Store.Sort.{id_of}

-- A copy of a body holds the same bytes.
clone_bytes-eq : (b : Str) → clone_bytes b ≡ b
unfolding clone_bytes
clone_bytes-eq [] = refl
clone_bytes-eq (x ∷ b) = refl

module _ {ℓ} {V : Type ℓ} where
  insert_fresh :
      (k : Str) (v : V) (m : Map V) → mem k (keys m) ≡ false → insert k v m ≡ m ++ (k, v) ∷ []
  unfolding insert mem keys
  insert_fresh k v [] h = refl
  insert_fresh k v ((i, w) ∷ m) h = ground (arith, insert_fresh k v m)

  fresh_of_IsDistinct :
      (k : Str) (v : V) (acc m : Map V)
      → IsDistinct (keys (acc ++ (k, v) ∷ m))
      → mem k (keys acc) ≡ false
  unfolding keys mem
  fresh_of_IsDistinct k v [] m h = refl
  fresh_of_IsDistinct k v ((i, w) ∷ acc) m h =
      ground
        (arith, fresh_of_IsDistinct k v acc m, str_eq_iff i k, str_eq_refl k, mem_later k v acc m)
    where
      mem_later : (k : Str) (v : V) (acc m : Map V) → mem k (keys (acc ++ (k, v) ∷ m)) ≡ true
      mem_later k v [] m = rw (str_eq_refl k)
      mem_later k v ((i, w) ∷ acc) m = rw (mem_later k v acc m) (ground arith)

clone_signals-append :
    (acc m : Map SignalSnapshot) → IsDistinct (keys (acc ++ m)) → clone_signals acc m ≡ acc ++ m
unfolding clone_signals
clone_signals-append acc [] h = sym (append-nil acc)
clone_signals-append acc ((code, s) ∷ m) h =
    rw (clone_bytes-eq, insert_fresh code s acc (fresh_of_IsDistinct code s acc m h))
      (clone_signals-append (acc ++ (code, s) ∷ []) m (rw append_assoc h)
        ∙ append_assoc acc ((code, s) ∷ []) m)

-- A snapshot whose signals stand at distinct codes, as every Go map does.
abbrev pub IsSnapshot : VehicleSnapshot → Type 0
IsSnapshot s = IsDistinct (keys s.signals)

-- The copy of a snapshot is equal to the snapshot.
pub clone_vehicle_snapshot-eq : (s : VehicleSnapshot) → IsSnapshot s → clone_vehicle_snapshot s ≡ s
unfolding clone_vehicle_snapshot
clone_vehicle_snapshot-eq s h = rw (clone_signals-append [] s.signals h)

abbrev pub IsEntry : Str × VehicleSnapshot → Type 0
IsEntry e = (id_of e.1 ≡ e.0) × IsSnapshot e.1

-- Each snapshot stands once, at its own identifier, and its signals are a map.
pub record IsCache (m : MemoryStore) : Type 0 where
  pub distinct : IsDistinct (keys m.vehicles)
  pub entries : All IsEntry m.vehicles

pub new_memory_store-IsCache : IsCache new_memory_store
unfolding new_memory_store keys
new_memory_store-IsCache = record { distinct = tt; entries = tt }

save-eq :
    (s : VehicleSnapshot) (m : MemoryStore)
    → IsSnapshot s
    → save s m ≡ record m { vehicles = insert s.vehicle.id s m.vehicles }
unfolding save
save-eq s m h = rw (clone_vehicle_snapshot-eq s h)

pub save-IsCache :
    (s : VehicleSnapshot) (m : MemoryStore) → IsSnapshot s → IsCache m → IsCache (save s m)
save-IsCache s m h c = rw (save-eq s m h) (record {
  distinct = IsDistinct-insert s.vehicle.id s m.vehicles c.distinct;
  entries = All-insert IsEntry s.vehicle.id s m.vehicles (refl, h) c.entries;
})

-- SaveMany of snapshots whose signals are maps keeps the invariant of the cache.
pub save_many-IsCache :
    (ss : List VehicleSnapshot) (m : MemoryStore)
    → All IsSnapshot ss
    → IsCache m
    → IsCache (save_many ss m)
unfolding save_many
save_many-IsCache [] m h c = c
save_many-IsCache (s ∷ ss) m h c = save_many-IsCache ss (save s m) h.1 (save-IsCache s m h.0 c)

pub set_last_error-IsCache :
    (e : Option GoError) (m : MemoryStore) → IsCache m → IsCache (set_last_error e m)
unfolding set_last_error
set_last_error-IsCache e m c = record { distinct = c.distinct; entries = c.entries }

-- What the abstract map holds at an identifier.
abbrev pub cached : MemoryStore → Str → Option VehicleSnapshot
cached m k = lookup k m.vehicles

pub cached-save :
    (s : VehicleSnapshot) (m : MemoryStore) (k : Str)
    → IsSnapshot s
    → cached (save s m) k ≡ (if str_eq s.vehicle.id k then some s else cached m k)
cached-save s m k h = rw (save-eq s m h) (lookup-insert s.vehicle.id k s m.vehicles)

-- From a well-formed cache Get returns what the map holds at the identifier, equal to what was
-- saved, or the zero snapshot with false.
pub get-cached :
    (k : Str) (m : MemoryStore)
    → IsCache m
    → get k m ≡ (elim (cached m k) [ none ↦ (zero_snapshot, false) | some s ↦ (s, true) ])
unfolding get
get-cached k m c = elim (Option-cases (cached m k)) [
  | inl missing ↦ rw (missing, get)
  | inr (s, found) ↦ rw (
    found,
    get,
    clone_vehicle_snapshot-eq s (All-lookup IsEntry k s m.vehicles c.entries found).1,
  )
]

-- What a list of snapshots leaves at an identifier: the last one of it, if any.
unfoldable pub latest : Str → List VehicleSnapshot → Option VehicleSnapshot → Option VehicleSnapshot
latest k [] before = before
latest k (s ∷ ss) before = latest k ss (if str_eq s.vehicle.id k then some s else before)

-- SaveMany of snapshots whose signals are maps writes each at its own identifier, in order, so
-- that the last one of an identifier stays, and changes nothing else.
pub cached-save_many :
    (ss : List VehicleSnapshot) (m : MemoryStore) (k : Str)
    → All IsSnapshot ss
    → cached (save_many ss m) k ≡ latest k ss (cached m k)
unfolding save_many latest
cached-save_many [] m k h = refl
cached-save_many (s ∷ ss) m k h =
    cached-save_many ss (save s m) k h.1 ∙ ap (latest k ss) (cached-save s m k h.0)
