-- ===== src/Command/Run/Laws.antt =====
-- What run closes.
use toyotaview.Common.{
  Bool, true, false, Option, none, some, List, [], ◌∷◌, ◌++◌, Str, GoError, Result, ok, err,
  Bool-cases, Option-cases, ◌≡◌, refl, ◌∙◌, inl, inr, arith, if◌then◌else◌,
}
use toyotaview.Config.Types.{Config}
use toyotaview.Config.Redact.{redacted}
use toyotaview.Config.Address.{is_loopback}
use toyotaview.Config.Load.{Loaded, loaded, help_error, failed}
use toyotaview.Command.Choice.{Chosen, should_migrate_storage}
use toyotaview.Command.Run.{
  Resource, logger, observer, storage, Action, printed, opened, closed, pinged, migrated, served,
  ServerEnd, signalled, server_failed, server_closed, System, Running, new_auth_service, act,
  announced, exposed, close_warned, after_opening, open_resource, warn_close, close_logger,
  shutdown_observer, close_storage, announce, perform, with_deferred, and_then, opening, shut_down,
  after_listen, serve_with, assemble, prepare, with_storage, with_observer, with_logger,
  print_config, run_printing, run,
}

same_resource : Resource → Resource → Bool
same_resource logger logger = true
same_resource observer observer = true
same_resource storage storage = true
same_resource _ _ = false

-- What is open after an action, the last opened first; only that may be closed.
unfoldable pub next_open : Action → List Resource → Option (List Resource)
unfolding same_resource
next_open (printed payload) held = some held
next_open (opened r) held = some (r ∷ held)
next_open (closed r) [] = none
next_open (closed r) (q ∷ held) = if same_resource r q then some held else none
next_open (announced c) held = some held
next_open (exposed addr) held = some held
next_open (close_warned e) held = some held
next_open pinged held = some held
next_open migrated held = some held
next_open (served chosen) held = some held

-- What is open after these actions, or none where one of them closes what it may not.
unfoldable pub still_open : List Action → List Resource → Option (List Resource)
unfolding next_open
still_open [] held = some held
still_open (a ∷ actions) held = elim (next_open a held) [
  | none ↦ none
  | some left ↦ still_open actions left
]

still_open-snoc :
    (actions : List Action) (a : Action) (held left : List Resource)
    → still_open actions held ≡ some left
    → still_open (actions ++ a ∷ []) held ≡ next_open a left
unfolding still_open
still_open-snoc [] a held left h = ground (arith, h)
still_open-snoc (b ∷ actions) a held left h = elim (Option-cases (next_open b held)) [
  | inl refused ↦ absurd (cc (rw (still_open, refused) at h))
  | inr (rest, fine) ↦
      rw (still_open, fine) (still_open-snoc actions a rest left (rw (still_open, fine) at h))
]

next_open_closed :
    (r : Resource) (held : List Resource) → next_open (closed r) (r ∷ held) ≡ some held
unfolding next_open same_resource
next_open_closed logger held = refl
next_open_closed observer held = refl
next_open_closed storage held = refl

module _ {W : Type 0} where
  -- These resources are open.
  abbrev pub HasOpen : List Resource → Running W → Type 0
  HasOpen held x = still_open x.actions [] ≡ some held

  HasOpen-act :
      (a : Action) (x : Running W) (held left : List Resource)
      → next_open a held ≡ some left
      → HasOpen held x
      → HasOpen left (act a x)
  unfolding act
  HasOpen-act a x held left h now = still_open-snoc x.actions a [] held now ∙ h

  HasOpen-perform :
      {A : Type 0} (a : Action) (f : W → A × W) (x : Running W) (held : List Resource)
      → next_open a held ≡ some held
      → HasOpen held x
      → HasOpen held (perform a f x).1
  unfolding perform
  HasOpen-perform a f x held h now =
      HasOpen-act a (record x { world = (f x.world).1 }) held held h now

  -- A function that leaves open what is open.
  abbrev Keeps : (Running W → Option GoError × Running W) → Type 0
  Keeps f = (held : List Resource) (x : Running W) → HasOpen held x → HasOpen held (f x).1

  -- A deferred call that closes what was opened last.
  abbrev Closes : Resource → (Running W → Running W) → Type 0
  Closes r deferred =
      (held : List Resource) (x : Running W) → HasOpen (r ∷ held) x → HasOpen held (deferred x)

  HasOpen-with_deferred :
      (r : Resource) (deferred : Running W → Running W)
      (rest : Running W → Option GoError × Running W) (p : Option GoError × Running W)
      (held : List Resource)
      → Closes r deferred
      → Keeps rest
      → HasOpen held p.1
      → HasOpen held (with_deferred deferred rest (after_opening r p)).1
  unfolding with_deferred after_opening next_open
  HasOpen-with_deferred r deferred rest (some e, x) held closes keeps now = now
  HasOpen-with_deferred r deferred rest (none, x) held closes keeps now =
      closes held (rest (act (opened r) x)).1
        (keeps (r ∷ held) (act (opened r) x) (HasOpen-act (opened r) x held (r ∷ held) refl now))

  HasOpen-closing :
      (r : Resource) (f : W → Option GoError × W) (held : List Resource) (x : Running W)
      → HasOpen (r ∷ held) x
      → HasOpen held (perform (closed r) f x).1
  unfolding perform
  HasOpen-closing r f held x now =
      HasOpen-act (closed r) (record x { world = (f x.world).1 }) (r ∷ held) held
        (next_open_closed r held) now

  HasOpen-warn_close :
      (p : Option GoError × Running W) (held : List Resource)
      → HasOpen held p.1
      → HasOpen held (warn_close p)
  unfolding warn_close next_open
  HasOpen-warn_close (none, x) held now = now
  HasOpen-warn_close (some e, x) held now = HasOpen-act (close_warned e) x held held refl now

  HasOpen-and_then :
      (next : Running W → Option GoError × Running W) (p : Option GoError × Running W)
      (held : List Resource)
      → Keeps next
      → HasOpen held p.1
      → HasOpen held (and_then next p).1
  unfolding and_then
  HasOpen-and_then next (some e, x) held keeps now = now
  HasOpen-and_then next (none, x) held keeps now = keeps held x now

  HasOpen-opening :
      (f : W → Option GoError × W) (held : List Resource) (x : Running W)
      → HasOpen held x
      → HasOpen held (opening f x).1
  unfolding opening
  HasOpen-opening f held x now = now

module _ {W : Type 0} (system : System W) (cfg : Config) where
  HasOpen-shut_down :
      (p : Option GoError × Running W) (held : List Resource)
      → HasOpen held p.1
      → HasOpen held (shut_down system cfg p).1
  unfolding shut_down
  HasOpen-shut_down (none, x) held now = now
  HasOpen-shut_down (some e, x) held now = now

  HasOpen-after_listen :
      (p : ServerEnd × Running W) (held : List Resource)
      → HasOpen held p.1
      → HasOpen held (after_listen system cfg p).1
  unfolding after_listen
  HasOpen-after_listen (signalled, x) held now =
      HasOpen-shut_down _ held (HasOpen-opening system.shutdown held x now)
  HasOpen-after_listen (server_failed e, x) held now = now
  HasOpen-after_listen (server_closed, x) held now = now

  Keeps-serve_with : (r : Result Chosen) → Keeps (serve_with system cfg r)
  unfolding serve_with next_open
  Keeps-serve_with (err e) held x now = now
  Keeps-serve_with (ok chosen) held x now = elim (Option-cases (system.new_handler cfg)) [
    | inr (e, bad) ↦ rw (serve_with, bad) now
    | inl fine ↦
        rw (serve_with, fine)
          (HasOpen-after_listen (perform (served chosen) (system.listen cfg chosen) x) held
            (HasOpen-perform (served chosen) (system.listen cfg chosen) x held refl now))
  ]

  Keeps-assemble : Keeps (assemble system cfg)
  unfolding assemble
  Keeps-assemble held x now = elim (Option-cases (new_auth_service cfg.auth.session_ttl)) [
    | inr (e, bad) ↦ rw (assemble, bad) now
    | inl fine ↦ rw (assemble, fine) (Keeps-serve_with _ held x now)
  ]

  Keeps-prepare : Keeps (prepare system cfg)
  unfolding prepare next_open
  Keeps-prepare held x now = elim (Bool-cases (should_migrate_storage cfg)) [
    | inl asked ↦ rw (prepare, asked) (HasOpen-perform migrated system.migrate x held refl now)
    | inr unasked ↦ rw (prepare, unasked) now
  ]

  Keeps-with_storage : Keeps (with_storage system cfg)
  unfolding with_storage next_open
  Keeps-with_storage held x now = HasOpen-and_then (assemble system cfg) _ held Keeps-assemble (
      HasOpen-and_then (prepare system cfg) _ held Keeps-prepare
        (HasOpen-perform pinged system.ping x held refl now))

  Closes-close_logger : Closes logger (close_logger system cfg)
  unfolding close_logger
  Closes-close_logger held x now = HasOpen-closing logger system.close_logger held x now

  Closes-shutdown_observer : Closes observer (shutdown_observer system cfg)
  unfolding shutdown_observer
  Closes-shutdown_observer held x now = HasOpen-closing observer system.shutdown_observer held x now

  Closes-close_storage : Closes storage (close_storage system cfg)
  unfolding close_storage
  Closes-close_storage held x now =
      HasOpen-warn_close _ held (HasOpen-closing storage system.close_storage held x now)

  Keeps-with_observer : Keeps (with_observer system cfg)
  unfolding with_observer open_resource
  Keeps-with_observer held x now =
      HasOpen-with_deferred storage (close_storage system cfg) (with_storage system cfg) _ held
        Closes-close_storage Keeps-with_storage
        (HasOpen-opening (system.open_storage cfg.storage) held x now)

  HasOpen-announce :
      (held : List Resource) (x : Running W) → HasOpen held x → HasOpen held (announce system cfg x)
  unfolding announce next_open
  HasOpen-announce held x now =
      let said = HasOpen-act (announced (redacted cfg)) x held held refl now in
      elim (Bool-cases (is_loopback system.network cfg.addr)) [
        | inl near ↦ rw near said
        | inr far ↦
            rw far (
              HasOpen-act (exposed cfg.addr) (act (announced (redacted cfg)) x) held held refl said)
      ]

  Keeps-with_logger : Keeps (with_logger system cfg)
  unfolding with_logger open_resource
  Keeps-with_logger held x now =
      HasOpen-with_deferred observer (shutdown_observer system cfg) (with_observer system cfg) _
        held Closes-shutdown_observer Keeps-with_observer
        (HasOpen-opening (system.new_observer cfg.otel) held (announce system cfg x)
          (HasOpen-announce held x now))

  HasOpen-print_config :
      (r : Result Str) (held : List Resource) (x : Running W)
      → HasOpen held x
      → HasOpen held (print_config system cfg r x).1
  unfolding print_config next_open
  HasOpen-print_config (err e) held x now = now
  HasOpen-print_config (ok payload) held x now = HasOpen-act (printed payload) x held held refl now

  Keeps-run_printing : (printing : Bool) → Keeps (run_printing system cfg printing)
  unfolding run_printing open_resource
  Keeps-run_printing true held x now = HasOpen-print_config _ held x now
  Keeps-run_printing false held x now =
      HasOpen-with_deferred logger (close_logger system cfg) (with_logger system cfg) _ held
        Closes-close_logger Keeps-with_logger
        (HasOpen-opening (system.new_logger cfg.logging) held x now)

-- Whatever fails and however the program ends, run closes each resource whose opening returned no
-- error, the last opened first, and nothing else: what is open after it is what was open before.
pub HasOpen-run :
    {W : Type 0} (system : System W) (l : Loaded) (held : List Resource) (x : Running W)
    → HasOpen held x
    → HasOpen held (run system l x).1
unfolding run next_open
HasOpen-run system (loaded cfg) held x now =
    Keeps-run_printing system cfg cfg.print_config held x now
HasOpen-run system (help_error message) held x now =
    HasOpen-act (printed message) x held held refl now
HasOpen-run system (failed e) held x now = now
