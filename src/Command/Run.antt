-- ===== src/Command/Run.antt =====
-- The function run of cmd/smartcar-4runner/main.go: what it opens, in which order, what its deferred
-- calls close, and what it logs of the start and of the storage. Opening, closing and serving are
-- parameters, and so is the configuration that Load returns.
pub mod Laws
pub mod Secrets
use toyotaview.Common.{
  pos, leb_ℤ, Bool, true, false, Option, none, some, List, [], ◌∷◌, ◌++◌, Str, GoError, new_error,
  wrapped, Result, ok, err, Duration, if◌then◌else◌,
}
use toyotaview.Config.Types.{Config, StorageConfig, LoggingConfig, OtelConfig}
use toyotaview.Config.Redact.{redacted, redacted_json}
use toyotaview.Config.Address.{Network, is_loopback}
use toyotaview.Config.Load.{Loaded, loaded, help_error, failed}
use toyotaview.Smartcar.Http.{Url}
use toyotaview.Command.Choice.{Chosen, should_migrate_storage, new_smartcar_api}

pub data Resource : Type 0 where
  logger observer storage : Resource

pub data Action : Type 0 where
  printed : Str → Action
  -- The logger's lines: the start with the redacted configuration, the warning about the address,
  -- and the error of closing the storage.
  announced : Config → Action
  exposed : Str → Action
  close_warned : GoError → Action
  opened : Resource → Action
  closed : Resource → Action
  pinged : Action
  migrated : Action
  served : Chosen → Action

-- How the wait for a signal or for the server ends.
pub data ServerEnd : Type 0 where
  signalled : ServerEnd
  server_failed : GoError → ServerEnd
  server_closed : ServerEnd

-- The packages that run opens and closes, by their errors, and the server. `network` is package net.
pub record System (W : Type 0) : Type 0 where
  pub lower_unicode : Str → Str
  pub parse_url : Str → Result Url
  pub version : Str
  -- json.MarshalIndent.
  pub marshal_indent : Config → Result Str
  pub network : Network
  pub new_logger : LoggingConfig → W → Option GoError × W
  pub close_logger : W → Option GoError × W
  pub new_observer : OtelConfig → W → Option GoError × W
  pub shutdown_observer : W → Option GoError × W
  pub open_storage : StorageConfig → W → Option GoError × W
  pub close_storage : W → Option GoError × W
  pub ping : W → Option GoError × W
  pub migrate : W → Option GoError × W
  pub new_handler : Config → Option GoError
  pub listen : Config → Chosen → W → ServerEnd × W
  pub shutdown : W → Option GoError × W

pub record Running (W : Type 0) : Type 0 where
  pub world : W
  pub actions : List Action

-- NewService of internal/auth/auth.go, with a store.
unfoldable pub new_auth_service : Duration → Option GoError
new_auth_service session_ttl =
    if leb_ℤ session_ttl (pos 0)
    then some (new_error "auth session ttl must be greater than zero")
    else none

module _ {W : Type 0} where
  unfoldable pub act : Action → Running W → Running W
  act a x = record x { actions = x.actions ++ a ∷ [] }

  -- A call that logs its action.
  unfoldable pub perform : {A : Type 0} → Action → (W → A × W) → Running W → A × Running W
  unfolding act
  perform a f x = ((f x.world).0, act a (record x { world = (f x.world).1 }))

  -- After an opening without an error, the rest of run and the deferred call that it registers.
  unfoldable pub with_deferred :
      (Running W → Running W)
      → (Running W → Option GoError × Running W)
      → Option GoError × Running W
      → Option GoError × Running W
  with_deferred deferred rest (some e, x) = (some e, x)
  with_deferred deferred rest (none, x) = let done = rest x in (done.0, deferred done.1)

  -- The next step of a function that returns at the first error.
  unfoldable pub and_then :
      (Running W → Option GoError × Running W)
      → Option GoError × Running W
      → Option GoError × Running W
  and_then next (some e, x) = (some e, x)
  and_then next (none, x) = next x

  -- A call that opens a resource.
  unfoldable pub opening : (W → Option GoError × W) → Running W → Option GoError × Running W
  opening f x = ((f x.world).0, record x { world = (f x.world).1 })

  -- A resource is open once its opening returned no error.
  unfoldable pub after_opening : Resource → Option GoError × Running W → Option GoError × Running W
  unfolding act
  after_opening r (some e, x) = (some e, x)
  after_opening r (none, x) = (none, act (opened r) x)

  unfoldable pub open_resource :
      Resource → (W → Option GoError × W) → Running W → Option GoError × Running W
  unfolding after_opening opening
  open_resource r f x = after_opening r (opening f x)

  unfoldable pub warn_close : Option GoError × Running W → Running W
  unfolding act
  warn_close (none, x) = x
  warn_close (some e, x) = act (close_warned e) x

module _ {W : Type 0} (system : System W) (cfg : Config) where
  unfoldable pub shut_down : Option GoError × Running W → Option GoError × Running W
  shut_down (none, x) = (none, x)
  shut_down (some e, x) = (some (wrapped "shutdown server" e), x)

  unfoldable pub after_listen : ServerEnd × Running W → Option GoError × Running W
  unfolding shut_down opening
  after_listen (signalled, x) = shut_down (opening system.shutdown x)
  after_listen (server_failed e, x) = (some e, x)
  after_listen (server_closed, x) = (none, x)

  unfoldable pub serve_with : Result Chosen → Running W → Option GoError × Running W
  unfolding after_listen perform
  serve_with (err e) x = (some e, x)
  serve_with (ok chosen) x = elim (system.new_handler cfg) [
    | some e ↦ (some e, x)
    | none ↦ after_listen (perform (served chosen) (system.listen cfg chosen) x)
  ]

  -- From NewService on.
  unfoldable pub assemble : Running W → Option GoError × Running W
  unfolding serve_with
  assemble x = elim (new_auth_service cfg.auth.session_ttl) [
    | some e ↦ (some e, x)
    | none ↦
        serve_with (new_smartcar_api system.lower_unicode system.parse_url system.version cfg) x
  ]

  unfoldable pub prepare : Running W → Option GoError × Running W
  unfolding perform
  prepare x = if should_migrate_storage cfg then perform migrated system.migrate x else (none, x)

  unfoldable pub with_storage : Running W → Option GoError × Running W
  unfolding and_then perform prepare assemble
  with_storage x = and_then assemble (and_then prepare (perform pinged system.ping x))

  -- The three deferred calls; only the error of the storage's is looked at.
  unfoldable pub close_logger : Running W → Running W
  unfolding perform
  close_logger x = (perform (closed logger) system.close_logger x).1

  unfoldable pub shutdown_observer : Running W → Running W
  unfolding perform
  shutdown_observer x = (perform (closed observer) system.shutdown_observer x).1

  unfoldable pub close_storage : Running W → Running W
  unfolding perform warn_close
  close_storage x = warn_close (perform (closed storage) system.close_storage x)

  unfoldable pub with_observer : Running W → Option GoError × Running W
  unfolding with_deferred open_resource close_storage
  with_observer x =
      with_deferred close_storage with_storage
        (open_resource storage (system.open_storage cfg.storage) x)

  -- The first lines of the logger.
  unfoldable pub announce : Running W → Running W
  unfolding act
  announce x =
      let said : Running W = act (announced (redacted cfg)) x in
      if is_loopback system.network cfg.addr then said else act (exposed cfg.addr) said

  unfoldable pub with_logger : Running W → Option GoError × Running W
  unfolding with_deferred open_resource shutdown_observer announce
  with_logger x =
      with_deferred shutdown_observer with_observer
        (open_resource observer (system.new_observer cfg.otel) (announce x))

  unfoldable pub print_config : Result Str → Running W → Option GoError × Running W
  unfolding act
  print_config (err e) x = (some e, x)
  print_config (ok payload) x = (none, act (printed payload) x)

  -- run with a configuration, which asks for it to be printed or not.
  unfoldable pub run_printing : Bool → Running W → Option GoError × Running W
  unfolding with_deferred open_resource close_logger print_config redacted_json
  run_printing true x = print_config (redacted_json system.marshal_indent cfg) x
  run_printing false x =
      with_deferred close_logger with_logger
        (open_resource logger (system.new_logger cfg.logging) x)

module _ {W : Type 0} (system : System W) where
  unfoldable pub run : Loaded → Running W → Option GoError × Running W
  unfolding run_printing act
  run (loaded cfg) x = run_printing system cfg cfg.print_config x
  run (help_error message) x = (none, act (printed message) x)
  run (failed e) x = (some e, x)
