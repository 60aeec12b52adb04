-- ===== src/Command/Tests.antt =====
-- The start of the program on a small configuration, and its theorems there.
use toyotaview.Common.{
  ℕ, suc, none, some, true, [], str, ok, new_error, ◌∷◌, lookup, ◌≡◌, refl, GoError, ◌⊎◌, ◌<◌,
}
use toyotaview.Config.Demo.{demo_library, demo, demo_parsers, demo_flags, load-demo}
use toyotaview.Config.Load.{loaded}
use toyotaview.Command.Choice.{Chosen, new_smartcar_api, env_map}
use toyotaview.Command.Choice.Laws.{IsChosen, new_smartcar_api-load}
use toyotaview.Command.Run.{
  System, Running, new_auth_service, run, server_closed, server_failed, after_listen,
}
use toyotaview.Command.Server.{
  Server, started, sending, finished, returned, Reach, start, move, outside, listen_failed, report,
  finish, take_error, listened, Move,
}
use toyotaview.Command.Server.Laws.{IsDue, returned_lem, Moves, IsSettled, remaining, settles}
use toyotaview.Common.Interleaving.{or_else, last_write}
use toyotaview.Command.Choice.Env.{strip, value_of, lookup-env_map}
use toyotaview.Command.Run.Secrets.{run-with_secrets}
use toyotaview.Config.Types.{Config}
use toyotaview.Config.Redact.{with_secrets}
use toyotaview.Command.Run.Laws.{still_open, HasOpen, HasOpen-run}

new_smartcar_api-load_example :
    (new_auth_service demo.auth.session_ttl ≡ none)
    × (api : Chosen) × (new_smartcar_api demo_parsers.lower_unicode demo_library.parse_url
          (str "1.0")
          demo
        ≡ ok api)
    × IsChosen demo api
new_smartcar_api-load_example =
    new_smartcar_api-load demo_parsers demo_library demo_flags (str "1.0") [] [] demo load-demo

-- The storage answers, but its migration fails, and closing it does too.
abbrev demo_system : System ℕ
demo_system = record {
  lower_unicode = demo_parsers.lower_unicode;
  parse_url = demo_library.parse_url;
  version = str "1.0";
  marshal_indent = λ c. ok (str "{}");
  network = record { split_host = λ addr. ok addr; parse_ip_loopback = λ host. none };
  new_logger = λ c w. (none, suc w);
  close_logger = λ w. (none, suc w);
  new_observer = λ c w. (none, suc w);
  shutdown_observer = λ w. (none, suc w);
  open_storage = λ c w. (none, suc w);
  close_storage = λ w. (some (new_error "busy"), suc w);
  ping = λ w. (none, suc w);
  migrate = λ w. (some (new_error "locked"), suc w);
  new_handler = λ c. none;
  listen = λ c api w. (server_closed, suc w);
  shutdown = λ w. (none, suc w);
}

abbrev demo_start : Running ℕ
demo_start = record { world = 0; actions = [] }

HasOpen-run_example : HasOpen [] (run demo_system (loaded demo) demo_start).1
unfolding still_open
HasOpen-run_example = HasOpen-run demo_system (loaded demo) [] demo_start refl

abbrev printing : Config
printing = record demo { print_config = true }

run-with_secrets_example :
    run demo_system
      (loaded
        (with_secrets (str "tenant-1234") (str "other") (str "robot567890") (str "pw") printing))
      demo_start
    ≡ run demo_system (loaded printing) demo_start
run-with_secrets_example =
    run-with_secrets demo_system printing (str "tenant-1234") (str "other") (str "robot567890")
      (str "pw") demo_start refl
      (record { same_empty = refl; same_length = refl; same_suffix = refl }) refl
      (record { same_empty = refl; same_length = refl; same_suffix = refl }) refl

-- ListenAndServe fails before a signal comes, and the goroutine reports it.
abbrev down : GoError
down = new_error "address in use"

abbrev failed_server : Server
failed_server = record started { listener = sending down }

abbrev ended_server : Server
ended_server = record started {
  listener = finished (some down);
  is_closed = true;
  waiter = returned (server_failed down) none;
}

failed-Reach : Reach failed_server
failed-Reach = outside start (listen_failed down refl)

ended-Reach : Reach ended_server
ended-Reach =
    move (move (move failed-Reach (report down refl refl)) (finish (some down) refl))
      (take_error down refl refl)

returned_lem_example :
    IsDue ended_server (server_failed down)
    × (some (some down) ≡ some (after_listen demo_system demo (server_failed down, demo_start)).0)
    × ((e : GoError)
        → listened ended_server.listener ≡ some (some e)
        → (ended_server.is_signalled ≡ true) ⊎ (some (some down) ≡ some (some e)))
returned_lem_example =
    returned_lem demo_system demo demo_start ended_server (server_failed down) none ended-Reach refl
      refl

settles_example :
    ((t : Server) × Moves failed_server t × IsSettled (some down) t)
    × ((t : Server) → Move failed_server t → remaining t < remaining failed_server)
settles_example = settles failed_server (some down) failed-Reach refl

-- A name that is set twice, the second time to a value with an equals sign, and an item with no name.
lookup-env_map_example :
    lookup (str "A") (env_map (str "A=1" ∷ str "B" ∷ str "A=2=3" ∷ []))
    ≡ last_write (value_of (str "A")) (str "A=1" ∷ str "B" ∷ str "A=2=3" ∷ [])
lookup-env_map_example = lookup-env_map (str "A") (str "A=1" ∷ str "B" ∷ str "A=2=3" ∷ []) refl

env_map-last :
    last_write (value_of (str "A")) (str "A=1" ∷ str "B" ∷ str "A=2=3" ∷ []) ≡ some (str "2=3")
unfolding last_write or_else strip
env_map-last = refl
