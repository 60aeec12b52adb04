-- ===== src/Store/Concurrent.antt =====
-- The calls of internal/store/memory.go that change the cache, and what they leave when two
-- goroutines make them at the same time. The lock makes a call one step, so a run is an
-- interleaving of the calls of each goroutine.
use toyotaview.Common.{
  Option, none, some, List, [], ◌∷◌, Str, str_eq, GoError, All, if◌then◌else◌, ◌≡◌, refl, sym, ap,
  ◌∙◌, ◌⊎◌, inl, inr, Bool-cases,
}
use toyotaview.Common.Interleaving.{
  Interleaved, or_else, or_else_assoc, last_write, last_write-Interleaved, last_write-first,
  All-Interleaved,
}
use toyotaview.Smartcar.Models.{VehicleSnapshot}
use toyotaview.Store.{MemoryStore, save, save_many, set_last_error}
use toyotaview.Store.Laws.{
  IsSnapshot, IsCache, cached, cached-save, cached-save_many, latest, save-IsCache,
  save_many-IsCache, set_last_error-IsCache,
}

-- The interface Writer.
pub data Call : Type 0 where
  call_save : VehicleSnapshot → Call
  call_save_many : List VehicleSnapshot → Call
  call_set_last_error : Option GoError → Call

unfoldable pub run_call : Call → MemoryStore → MemoryStore
run_call (call_save s) m = save s m
run_call (call_save_many ss) m = save_many ss m
run_call (call_set_last_error e) m = set_last_error e m

unfoldable pub run_calls : List Call → MemoryStore → MemoryStore
unfolding run_call
run_calls [] m = m
run_calls (c ∷ cs) m = run_calls cs (run_call c m)

-- The snapshots of a call are those of a Go map.
abbrev pub IsCall : Call → Type 0
IsCall (call_save s) = IsSnapshot s
IsCall (call_save_many ss) = All IsSnapshot ss
IsCall (call_set_last_error e) = Unit {0}

-- The snapshot that a call leaves at an identifier, and the error that it leaves.
abbrev pub saved_at : Str → Call → Option VehicleSnapshot
saved_at k (call_save s) = if str_eq s.vehicle.id k then some s else none
saved_at k (call_save_many ss) = latest k ss none
saved_at k (call_set_last_error e) = none

abbrev pub error_of : Call → Option (Option GoError)
error_of (call_save s) = none
error_of (call_save_many ss) = none
error_of (call_set_last_error e) = some e

or_else-latest :
    (k : Str) (ss : List VehicleSnapshot) (before : Option VehicleSnapshot)
    → latest k ss before ≡ or_else (latest k ss none) before
unfolding or_else latest
or_else-latest k [] before = refl
or_else-latest k (s ∷ ss) before = elim (Bool-cases (str_eq s.vehicle.id k)) [
  | inl same ↦ rw same (
      or_else-latest k ss (some s)
      ∙ sym (or_else_assoc (latest k ss none) (some s) before)
      ∙ ap (λ o. or_else o before) (sym (or_else-latest k ss (some s))))
  | inr other ↦ rw other (or_else-latest k ss before)
]

cached-run_call :
    (k : Str) (c : Call) (m : MemoryStore)
    → IsCall c
    → cached (run_call c m) k ≡ or_else (saved_at k c) (cached m k)
unfolding run_call or_else set_last_error
cached-run_call k (call_save s) m h = elim (Bool-cases (str_eq s.vehicle.id k)) [
  | inl same ↦ rw (cached-save s m k h, same) refl
  | inr other ↦ rw (cached-save s m k h, other) refl
]
cached-run_call k (call_save_many ss) m h =
    cached-save_many ss m k h ∙ or_else-latest k ss (cached m k)
cached-run_call k (call_set_last_error e) m h = refl

last_error-save_many :
    (ss : List VehicleSnapshot) (m : MemoryStore) → (save_many ss m).last_error ≡ m.last_error
unfolding save_many save
last_error-save_many [] m = refl
last_error-save_many (s ∷ ss) m = last_error-save_many ss _

last_error-run_call :
    (c : Call) (m : MemoryStore)
    → some (run_call c m).last_error ≡ or_else (error_of c) (some m.last_error)
unfolding run_call or_else set_last_error save
last_error-run_call (call_save s) m = refl
last_error-run_call (call_save_many ss) m = ap some (last_error-save_many ss m)
last_error-run_call (call_set_last_error e) m = refl

run_call-IsCache : (c : Call) (m : MemoryStore) → IsCall c → IsCache m → IsCache (run_call c m)
unfolding run_call
run_call-IsCache (call_save s) m h c = save-IsCache s m h c
run_call-IsCache (call_save_many ss) m h c = save_many-IsCache ss m h c
run_call-IsCache (call_set_last_error e) m h c = set_last_error-IsCache e m c

run_calls-IsCache :
    (cs : List Call) (m : MemoryStore) → All IsCall cs → IsCache m → IsCache (run_calls cs m)
unfolding run_calls
run_calls-IsCache [] m h c = c
run_calls-IsCache (d ∷ cs) m h c = run_calls-IsCache cs _ h.1 (run_call-IsCache d m h.0 c)

-- A run leaves at an identifier what its last call that saves there leaves, or what was there.
pub cached-run_calls :
    (k : Str) (cs : List Call) (m : MemoryStore)
    → All IsCall cs
    → cached (run_calls cs m) k ≡ or_else (last_write (saved_at k) cs) (cached m k)
unfolding run_calls last_write or_else
cached-run_calls k [] m h = refl
cached-run_calls k (c ∷ cs) m h =
    cached-run_calls k cs (run_call c m) h.1
    ∙ ap (or_else (last_write (saved_at k) cs)) (cached-run_call k c m h.0)
    ∙ sym (or_else_assoc (last_write (saved_at k) cs) (saved_at k c) (cached m k))

pub last_error-run_calls :
    (cs : List Call) (m : MemoryStore)
    → some (run_calls cs m).last_error ≡ or_else (last_write error_of cs) (some m.last_error)
unfolding run_calls last_write or_else
last_error-run_calls [] m = refl
last_error-run_calls (c ∷ cs) m =
    last_error-run_calls cs (run_call c m)
    ∙ ap (or_else (last_write error_of cs)) (last_error-run_call c m)
    ∙ sym (or_else_assoc (last_write error_of cs) (error_of c) (some m.last_error))

some_injective {ℓ} : {A : Type ℓ} (a b : A) → some a ≡ some b → a ≡ b
some_injective a b e = cc e

last_error-same :
    (zs xs : List Call) (m : MemoryStore)
    → last_write error_of zs ≡ last_write error_of xs
    → (run_calls zs m).last_error ≡ (run_calls xs m).last_error
last_error-same zs xs m same = some_injective _ _ (
    last_error-run_calls zs m
    ∙ ap (λ o. or_else o (some m.last_error)) same
    ∙ sym (last_error-run_calls xs m))

-- What two goroutines leave at one place is what one of them alone leaves there.
abbrev pub IsOneOf {ℓ} : {A : Type ℓ} → A → A → A → Type ℓ
IsOneOf z x y = (z ≡ x) ⊎ (z ≡ y)

-- Whatever the order in which the lock lets the calls of two goroutines in, the cache stays
-- well-formed, each identifier holds what one of the two alone would have left there, and so does
-- the last error. So an identifier that both save is left with a whole snapshot of one of them.
pub run_calls-Interleaved :
    (m : MemoryStore) (xs ys zs : List Call)
    → Interleaved xs ys zs
    → All IsCall xs
    → All IsCall ys
    → IsCache m
    → IsCache (run_calls zs m)
      × ((k : Str)
          → IsOneOf
              (cached (run_calls zs m) k)
              (cached (run_calls xs m) k)
              (cached (run_calls ys m) k))
      × IsOneOf (run_calls zs m).last_error (run_calls xs m).last_error (run_calls ys m).last_error
run_calls-Interleaved m xs ys zs i first second c =
    let all : All IsCall zs = All-Interleaved IsCall i first second in
    (
      run_calls-IsCache zs m all c,
      λ k. elim (last_write-Interleaved (saved_at k) i) [
        | inl (same, later) ↦ inl (
            cached-run_calls k zs m all
            ∙ ap (λ o. or_else o (cached m k)) same
            ∙ sym (cached-run_calls k xs m first))
        | inr (same, later) ↦ inr (
            cached-run_calls k zs m all
            ∙ ap (λ o. or_else o (cached m k)) same
            ∙ sym (cached-run_calls k ys m second))
      ],
      elim (last_write-Interleaved error_of i) [
        | inl (same, later) ↦ inl (last_error-same zs xs m same)
        | inr (same, later) ↦ inr (last_error-same zs ys m same)
      ],
    )

-- Where the second goroutine saves nothing at an identifier, the first one alone decides it.
pub cached-first :
    (k : Str) (m : MemoryStore) (xs ys zs : List Call)
    → Interleaved xs ys zs
    → All IsCall xs
    → All IsCall ys
    → last_write (saved_at k) ys ≡ none
    → cached (run_calls zs m) k ≡ cached (run_calls xs m) k
cached-first k m xs ys zs i first second unwritten =
    cached-run_calls k zs m (All-Interleaved IsCall i first second)
    ∙ ap (λ o. or_else o (cached m k)) (last_write-first (saved_at k) i unwritten)
    ∙ sym (cached-run_calls k xs m first)
