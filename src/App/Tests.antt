-- ===== src/App/Tests.antt =====
-- The service against a small API, and the theorems at inputs that meet their hypotheses.
use toyotaview.Common.{
  ◌≤◌, ◌+◌, ℕ, suc, true, none, some, List, [], ◌∷◌, ◌&&◌, Str, str, mem, str_eq, ◌≡◌, refl, pos,
  ◌++◌, Option, if◌then◌else◌, All, GoError, foreign, api_error, ok, err, zero_time, ◌↔◌, Time,
  as_api, keys,
}
use toyotaview.Config.Types.{SmartcarConfig}
use toyotaview.Smartcar.Api.{Api}
use toyotaview.Smartcar.Models.{
  Vehicle, Connection, zero_vehicle, zero_signal, zero_snapshot, unsupported, VehicleSnapshot,
}
use toyotaview.Smartcar.Demo.{demo_net, demo_json, demo_client, demo_start}
use toyotaview.Smartcar.Client.{ClientState}
use toyotaview.Smartcar.Client.Counts.{sends}
use toyotaview.Smartcar.Connections.{client_api}
use toyotaview.App.Live.{sent_by, sends-refresh_vehicle}
use toyotaview.Common.Interleaving.{
  Interleaved, both_done, of_first, of_second, or_else, last_write,
}
use toyotaview.Store.{new_memory_store, get}
use toyotaview.Store.Laws.{cached, new_memory_store-IsCache}
use toyotaview.Store.Concurrent.{Call, call_save, call_set_last_error, run_calls, saved_at}
use toyotaview.App.Concurrent.{vehicle_calls, refreshed, refresh_vehicle-Interleaved}
use toyotaview.App.Types.{State, Service, call, emit, note_error}
use toyotaview.App.Select.{filter_connections, is_connected}
use toyotaview.App.Select.Laws.{IsAllowed, IsSorted, filter_connections_lem}
use toyotaview.App.Snapshot.{
  refresh_vehicle_snapshot, failed_snapshot, map_signal_state, status_state, mem_status,
  refresh_found, refresh_signals, record_signal, mark_partial,
}
use toyotaview.App.Refresh.{refresh_all, refresh_vehicle, refresh_one, finish_one, give_up}
use toyotaview.App.Refresh.Outcome.{refresh_all_ok, some_refreshed}
use toyotaview.App.Refresh.Vehicle.{refresh_vehicle_overwrites}

abbrev demo_config : SmartcarConfig
demo_config = record {
  client_id = [];
  client_secret = [];
  user_id = str "u";
  iam_base_url = [];
  vehicle_base_url = [];
  vehicle_ids = str "a" ∷ str "b" ∷ [];
  signal_codes = str "range" ∷ str "oil-life" ∷ [];
  unit_system = str "metric";
  timeout = pos 1;
  max_retries = pos 2;
}

abbrev demo_service : Service
demo_service = record { cfg = demo_config; allowed_vehicle_ids = str "a" ∷ str "b" ∷ [] }

abbrev vehicle_of : Str → Vehicle
vehicle_of k = record zero_vehicle { id = k }

abbrev connection_of : Str → Connection
connection_of k = record {
  id = [];
  vehicle_id = k;
  user_id = [];
  permissions = [];
  vehicle = vehicle_of k;
  created_at = zero_time;
  updated_at = zero_time;
  last_used_at = zero_time;
}

abbrev three_connections : List Connection
three_connections = connection_of (str "b") ∷ connection_of (str "c") ∷ connection_of (str "a") ∷ []

abbrev not_found : GoError
not_found = api_error (record {
  operation = "get_signal";
  method = "GET";
  url = [];
  status = 404;
  request_id = [];
  body = [];
})

abbrev outage : GoError
outage = foreign (str "connection refused") true

-- The world counts the calls; vehicle b cannot be read, and one signal is unsupported.
abbrev demo_api : Api ℕ
demo_api = record {
  list_connections = λ user w. (ok three_connections, suc w);
  get_vehicle = λ k w. (if str_eq k (str "b") then err outage else ok (vehicle_of k), suc w);
  get_signal = λ user k code w.
      (if str_eq code (str "oil-life") then err not_found else ok zero_signal, suc w);
}

abbrev demo_clock : ℕ → Time
demo_clock w = pos w

abbrev demo_state : State ℕ
demo_state = record { world = 0; store = new_memory_store; events = [] }

maps_not_found : map_signal_state not_found ≡ unsupported
unfolding map_signal_state as_api status_state mem_status
maps_not_found = refl

filter_connections_lem_example :
    All
      (IsAllowed demo_service.allowed_vehicle_ids)
      (filter_connections demo_service three_connections)
    × ((k : Str)
        → is_connected k (filter_connections demo_service three_connections)
          ≡ (mem k demo_service.allowed_vehicle_ids && is_connected k three_connections))
    × IsSorted (filter_connections demo_service three_connections)
filter_connections_lem_example = filter_connections_lem demo_service three_connections refl

refresh_all_ok_example :
    ((refresh_all demo_api demo_clock demo_service demo_state).0.1 ≡ none)
    ↔ (some_refreshed (refresh_all demo_api demo_clock demo_service demo_state).0.0 ≡ true)
refresh_all_ok_example = refresh_all_ok demo_api demo_clock demo_service demo_state

refresh_vehicle_overwrites_example :
    ((refresh_vehicle demo_api demo_clock demo_service (str "b") demo_state).0.1 ≡ some outage)
    × (cached
          (refresh_vehicle demo_api demo_clock demo_service (str "b") demo_state).1.store
          (str "b")
        ≡ some (failed_snapshot (str "b") outage))
unfolding mem str_eq
refresh_vehicle_overwrites_example =
    refresh_vehicle_overwrites demo_api demo_clock demo_service (str "b") outage demo_state refl
      refl refl

-- The service over the HTTP client.
abbrev live_state : State (ClientState ℕ)
live_state = record { world = demo_start; store = new_memory_store; events = [] }

sends-refresh_vehicle_example :
    sent_by demo_net demo_json demo_client 1
      (refresh_vehicle
        (client_api demo_net demo_json demo_client 1)
        (λ st. pos 0)
        demo_service
        (str "a")
        live_state).1.world
    ≤ 0 + 18
unfolding sends
sends-refresh_vehicle_example =
    sends-refresh_vehicle demo_net demo_json demo_client 1 (λ st. pos 0) demo_service (str "a")
      live_state refl

-- Two goroutines refresh the vehicles a and b; the calls of the second one stand between those of
-- the first one.
abbrev other_calls : List Call
other_calls =
    call_save (record zero_snapshot { vehicle = vehicle_of (str "b") })
    ∷ call_set_last_error (some outage)
    ∷ []

abbrev of_a : VehicleSnapshot × Option GoError
of_a = refreshed demo_api demo_clock demo_service (str "a") demo_state

abbrev mixed_calls : List Call
mixed_calls = call_save (of_a.0) ∷ other_calls ++ call_set_last_error (of_a.1) ∷ []

mixed_calls-Interleaved : Interleaved (vehicle_calls of_a) other_calls mixed_calls
unfolding vehicle_calls
mixed_calls-Interleaved = of_first _ (of_second _ (of_second _ (of_first _ both_done)))

of_a-id : of_a.0.vehicle.id ≡ str "a"
unfolding refresh_vehicle refresh_one finish_one refresh_vehicle_snapshot refresh_found
    refresh_signals record_signal mark_partial call emit note_error give_up mem str_eq
    map_signal_state status_state mem_status as_api
of_a-id = refl

written_by_others : (k : Str) → k ≡ str "a" → last_write (saved_at k) other_calls ≡ none
unfolding last_write or_else str_eq
written_by_others k e = rw e refl

refresh_vehicle-Interleaved_example :
    ((refresh_vehicle demo_api demo_clock demo_service (str "a") demo_state).1.store
      ≡ run_calls (vehicle_calls of_a) new_memory_store)
    × (get of_a.0.vehicle.id (run_calls mixed_calls new_memory_store) ≡ (of_a.0, true))
    × ((k : Str)
        → cached (run_calls mixed_calls new_memory_store) k ≡ (
            if str_eq of_a.0.vehicle.id k
            then some of_a.0
            else cached (run_calls other_calls new_memory_store) k))
unfolding mem str_eq keys
refresh_vehicle-Interleaved_example =
    refresh_vehicle-Interleaved demo_api demo_clock demo_service (str "a") demo_state
      new_memory_store other_calls mixed_calls refl refl mixed_calls-Interleaved (tt, (tt, tt))
      (written_by_others of_a.0.vehicle.id of_a-id) new_memory_store-IsCache
