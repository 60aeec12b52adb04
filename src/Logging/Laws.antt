-- ===== src/Logging/Laws.antt =====
-- The logger that New makes for a valid configuration, and what Close does to it.
use toyotaview.Common.{
  ℤ, pos, true, Option, none, some, List, [], ◌∷◌, Str, Map, mem, GoError, ok, Bool-cases, false,
  ◌++◌, ◌≡◌, ◌↔◌, refl, inl, inr, if◌then◌else◌,
}
use toyotaview.Config.Types.{Config, LoggingConfig}
use toyotaview.Config.Defaults.{Parsers}
use toyotaview.Config.FlagSet.{Definition}
use toyotaview.Config.Validate.{log_levels}
use toyotaview.Config.Validate
use toyotaview.Config.Load.{Parsed, loaded, load}
use toyotaview.Config.Load.Laws.{load-IsReady}
use toyotaview.Logging.{
  Library, ManagedLogger, Sink, file, stdout, parse_level, file_writer, with_level, new_logger,
  is_ignorable_sync_error, sync_errors, with_error, close_each, close,
}

module _ {W : Type 0} (lib : Library W) where
  -- zap knows the levels by these names.
  abbrev pub KnowsLevels : Type 0
  KnowsLevels =
      (value : Str) → mem value log_levels ≡ true → (level : ℤ) × (lib.set_level value ≡ ok level)

  -- An error of Sync that Close does not report, or none.
  abbrev pub IsHarmless : Option GoError → Type 0
  IsHarmless none = Unit {0}
  IsHarmless (some e) = is_ignorable_sync_error lib e ≡ true

  reported-none :
      (synced closed : Option GoError)
      → (with_error lib closed (sync_errors lib synced) ≡ [])
        ↔ (IsHarmless synced × (closed ≡ none))
  unfolding with_error sync_errors
  reported-none none none = (λ h. (tt, refl), λ h. refl)
  reported-none none (some e) = (λ h. absurd (cc h), λ h. absurd (cc (h.1)))
  reported-none (some s) none = elim (Bool-cases (is_ignorable_sync_error lib s)) [
    | inl harmless ↦ rw (sync_errors, harmless) (λ h. (refl, refl), λ h. refl)
    | inr bad ↦ rw (sync_errors, bad) (λ h. absurd (cc h), λ h. absurd (cc (h.0)))
  ]
  reported-none (some s) (some e) = elim (Bool-cases (is_ignorable_sync_error lib s)) [
    | inl harmless ↦ rw (sync_errors, harmless) (λ h. absurd (cc h), λ h. absurd (cc (h.1)))
    | inr bad ↦ rw (sync_errors, bad) (λ h. absurd (cc h), λ h. absurd (cc (h.1)))
  ]

  -- The error of Sync that matters, if any.
  unfoldable pub harmful : Option GoError → List GoError
  harmful none = []
  harmful (some e) = elim (is_ignorable_sync_error lib e) [ true ↦ [] | false ↦ e ∷ [] ]

  abbrev pub listed : Option GoError → List GoError
  listed none = []
  listed (some e) = e ∷ []

  reported_lem :
      (synced closed : Option GoError)
      → with_error lib closed (sync_errors lib synced) ≡ harmful synced ++ listed closed
  unfolding with_error sync_errors harmful
  reported_lem none none = refl
  reported_lem none (some e) = refl
  reported_lem (some s) none = elim (Bool-cases (is_ignorable_sync_error lib s)) [
    | inl harmless ↦ rw (sync_errors, harmful, harmless) refl
    | inr bad ↦ rw (sync_errors, harmful, bad) refl
  ]
  reported_lem (some s) (some e) = elim (Bool-cases (is_ignorable_sync_error lib s)) [
    | inl harmless ↦ rw (sync_errors, harmful, harmless) refl
    | inr bad ↦ rw (sync_errors, harmful, bad) refl
  ]

  -- What Close does to a logger whose only closer is its file: it reports the error of Sync that
  -- matters and then the one of the file, those that there are and no other; so it reports none
  -- exactly if Sync gave none that matters and the file closes; and it closes the file in any case.
  abbrev pub Closes : Sink → ManagedLogger → W → Type 0
  Closes writer m w =
      let synced = lib.sync m.sinks w in
      let closed = lib.close writer synced.1 in
      ((close lib (some m) w).0 ≡ harmful synced.0 ++ listed closed.0)
      × (((close lib (some m) w).0 ≡ []) ↔ (IsHarmless synced.0 × (closed.0 ≡ none)))
      × ((close lib (some m) w).1 ≡ closed.1)

  Closes-one :
      (writer : Sink) (m : ManagedLogger) (w : W) → m.closers ≡ writer ∷ [] → Closes writer m w
  unfolding close close_each
  Closes-one writer m w one =
      let synced = lib.sync m.sinks w in
      let closed = lib.close writer synced.1 in
      rw one (reported_lem synced.0 closed.0, reported-none synced.0 closed.0, refl)

  new_logger-known :
      (cfg : LoggingConfig) (level : ℤ)
      → lib.set_level cfg.level ≡ ok level
      → (m : ManagedLogger) × (new_logger lib cfg ≡ ok m)
        × (m.level ≡ level)
        × (m.sinks ≡ file (file_writer lib cfg) ∷ (if cfg.add_stdout then stdout ∷ [] else []))
        × (m.closers ≡ file (file_writer lib cfg) ∷ [])
  unfolding new_logger with_level parse_level
  new_logger-known cfg level known = (
    record {
      level = level;
      encoding = record {
        time_key = "ts";
        encode_time = "ISO8601TimeEncoder";
        encode_duration = "StringDurationEncoder";
      };
      sinks = file (file_writer lib cfg) ∷ (if cfg.add_stdout then stdout ∷ [] else []);
      caller_skip = pos 1;
      closers = file (file_writer lib cfg) ∷ [];
    },
    rw (known, parse_level) refl,
    refl,
    refl,
    refl,
  )

  module _ (parsers : Parsers) (checks : Validate.Library)
      (parse_flags : List Definition → List Str → Parsed) where
    -- Where zap knows the four names of levels, New makes a logger for a configuration that Load
    -- returns, which writes to the configured file, and to the standard output too if that is asked
    -- for. Closing it closes the file whatever Sync returned, and reports the error of Sync unless it
    -- is an ignorable one, then the one of closing the file, and no other.
    pub close-new_logger :
        (args : List Str) (env : Map Str) (c : Config)
        → KnowsLevels
        → load parsers checks parse_flags args env ≡ loaded c
        → (m : ManagedLogger) × (new_logger lib c.logging ≡ ok m)
          × (m.sinks
              ≡ file (file_writer lib c.logging)
                ∷ (if c.logging.add_stdout then stdout ∷ [] else []))
          × ((w : W) → Closes (file (file_writer lib c.logging)) m w)
    close-new_logger args env c knows started =
        let ready = load-IsReady parsers checks parse_flags args env c started in
        let level = knows c.logging.level ready.is_valid.4.0 in
        let made = new_logger-known c.logging level.0 level.1 in
        (
          made.0,
          made.1,
          made.3,
          λ w. Closes-one (file (file_writer lib c.logging)) made.0 w (made.4),
        )
