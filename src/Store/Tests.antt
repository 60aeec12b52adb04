-- ===== src/Store/Tests.antt =====
-- The cache on small inputs, and the theorems at inputs that meet their hypotheses.
use toyotaview.Common.{
  none, some, new_error, List, [], ◌∷◌, Str, str, lookup, insert, values, keys, mem, str_eq,
  str_eq_iff, arith, str_lt, ◌≡◌, refl, All,
}
use toyotaview.Smartcar.Models.{VehicleSnapshot, zero_vehicle, zero_snapshot, zero_signal, state_ok}
use toyotaview.Store.{
  new_memory_store, clone_bytes, clone_signals, clone_vehicle_snapshot, save, save_many, get, list,
}
use toyotaview.Store.Sort.{insert_by_id, sort_by_id, find_by_id}
use toyotaview.Store.Laws.{IsSnapshot, IsCache, cached, save_many-IsCache, new_memory_store-IsCache}
use toyotaview.Store.Listing.{list_unique}
use toyotaview.Common.Interleaving.{both_done, of_first, of_second}
use toyotaview.Store.Concurrent.{
  Call, call_save, call_save_many, call_set_last_error, run_calls, IsOneOf, run_calls-Interleaved,
}

abbrev snapshot_of : Str → VehicleSnapshot
snapshot_of k = record zero_snapshot { vehicle = record zero_vehicle { id = k } }

abbrev with_signal : Str → VehicleSnapshot
with_signal k = record (snapshot_of k) {
  signals =
      (
        str "range",
        record { signal = record zero_signal { body = str "{}" }; error = none; state = state_ok },
      )
      ∷ [];
}

abbrev two : List VehicleSnapshot
two = with_signal (str "b") ∷ snapshot_of (str "a") ∷ []

abbrev two_reversed : List VehicleSnapshot
two_reversed = snapshot_of (str "a") ∷ with_signal (str "b") ∷ []

program : Unit {0}
unfolding new_memory_store clone_bytes clone_signals clone_vehicle_snapshot save save_many get list
    lookup insert values keys mem str_eq str_lt insert_by_id sort_by_id find_by_id
program = tt

list-two : list (save_many two new_memory_store) ≡ two_reversed
unfolding program
list-two = refl

two-IsSnapshot : All IsSnapshot two
unfolding keys mem
two-IsSnapshot = ((refl, tt), (tt, tt))

two_reversed-IsSnapshot : All IsSnapshot two_reversed
unfolding keys mem
two_reversed-IsSnapshot = (tt, ((refl, tt), tt))

two-IsCache : IsCache (save_many two new_memory_store)
two-IsCache = save_many-IsCache two new_memory_store two-IsSnapshot new_memory_store-IsCache

two_reversed-IsCache : IsCache (save_many two_reversed new_memory_store)
two_reversed-IsCache =
    save_many-IsCache two_reversed new_memory_store two_reversed-IsSnapshot new_memory_store-IsCache

same_cached :
    (k : Str)
    → cached (save_many two new_memory_store) k ≡ cached (save_many two_reversed new_memory_store) k
unfolding program
same_cached k = ground (arith, str_eq_iff (str "a") k, str_eq_iff (str "b") k)

list_unique_example :
    list (save_many two new_memory_store) ≡ list (save_many two_reversed new_memory_store)
list_unique_example =
    list_unique (save_many two new_memory_store) (save_many two_reversed new_memory_store)
      two-IsCache two_reversed-IsCache same_cached

-- One goroutine saves both vehicles and clears the error while the other one saves the first of them
-- and reports an error.
abbrev all_calls : List Call
all_calls = call_save_many two ∷ call_set_last_error none ∷ []

abbrev one_call : List Call
one_call = call_save (snapshot_of (str "b")) ∷ call_set_last_error (some (new_error "down")) ∷ []

abbrev mixed_calls : List Call
mixed_calls =
    call_save (snapshot_of (str "b"))
    ∷ call_save_many two
    ∷ call_set_last_error (some (new_error "down"))
    ∷ call_set_last_error none
    ∷ []

run_calls-Interleaved_example :
    IsCache (run_calls mixed_calls new_memory_store)
    × ((k : Str)
        → IsOneOf
            (cached (run_calls mixed_calls new_memory_store) k)
            (cached (run_calls all_calls new_memory_store) k)
            (cached (run_calls one_call new_memory_store) k))
    × IsOneOf
        (run_calls mixed_calls new_memory_store).last_error
        (run_calls all_calls new_memory_store).last_error
        (run_calls one_call new_memory_store).last_error
unfolding keys
run_calls-Interleaved_example =
    run_calls-Interleaved new_memory_store all_calls one_call mixed_calls
      (of_second _ (of_first _ (of_second _ (of_first _ both_done)))) (two-IsSnapshot, (tt, tt))
      (tt, (tt, tt)) new_memory_store-IsCache
