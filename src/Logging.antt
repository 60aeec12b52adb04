-- ===== src/Logging.antt =====
-- internal/logging/logger.go over zap and lumberjack.
pub mod Laws
mod Tests
use toyotaview.Common.{
  ℤ, pos, Bool, ◌||◌, Option, none, some, List, [], ◌∷◌, ◌++◌, Str, str, String, contains_str,
  GoError, wrapped, Result, ok, err, if◌then◌else◌,
}
use toyotaview.Common.Text.{to_lower}
use toyotaview.Config.Types.{LoggingConfig}

-- The fields of the `lumberjack.Logger`.
pub record FileWriter : Type 0 where
  pub filename : Str
  pub max_size : ℤ
  pub max_backups : ℤ
  pub max_age : ℤ
  pub compress : Bool

pub data Sink : Type 0 where
  file : FileWriter → Sink
  stdout : Sink

-- What New sets of the JSON encoder.
pub record Encoding : Type 0 where
  pub time_key : String
  pub encode_time : String
  pub encode_duration : String

-- The logger with what its core was made of, and the closers.
pub record ManagedLogger : Type 0 where
  pub level : ℤ
  pub encoding : Encoding
  pub sinks : List Sink
  pub caller_skip : ℤ
  pub closers : List Sink

-- What the code asks of zap and lumberjack: the method Set of zapcore.Level, the method Sync of a
-- logger with these outputs, and the Close of one of them. `error_text` is the text of an error.
pub record Library (W : Type 0) : Type 0 where
  pub set_level : Str → Result ℤ
  pub sync : List Sink → W → Option GoError × W
  pub close : Sink → W → Option GoError × W
  pub error_text : GoError → Str
  pub lower_unicode : Str → Str

module _ {W : Type 0} (lib : Library W) where
  unfoldable pub parse_level : Str → Result ℤ
  parse_level value = elim (lib.set_level value) [
    | ok level ↦ ok level
    | err e ↦ err (wrapped "parse log level" e)
  ]

  unfoldable pub file_writer : LoggingConfig → FileWriter
  file_writer cfg = record {
    filename = cfg.file;
    max_size = cfg.max_size_mb;
    max_backups = cfg.max_backups;
    max_age = cfg.max_age_days;
    compress = cfg.compress;
  }

  unfoldable pub with_level : LoggingConfig → Result ℤ → Result ManagedLogger
  unfolding file_writer
  with_level cfg (err e) = err e
  with_level cfg (ok level) =
      let writer = file (file_writer cfg) in
      ok (record {
        level = level;
        encoding = record {
          time_key = "ts";
          encode_time = "ISO8601TimeEncoder";
          encode_duration = "StringDurationEncoder";
        };
        sinks = writer ∷ (if cfg.add_stdout then stdout ∷ [] else []);
        caller_skip = pos 1;
        closers = writer ∷ [];
      })

  -- New.
  unfoldable pub new_logger : LoggingConfig → Result ManagedLogger
  unfolding with_level parse_level
  new_logger cfg = with_level cfg (parse_level cfg.level)

  unfoldable pub is_ignorable_sync_error : GoError → Bool
  is_ignorable_sync_error e =
      let message = to_lower lib.lower_unicode (lib.error_text e) in
      contains_str message (str "invalid argument")
      || contains_str message (str "incorrect function")

  unfoldable pub sync_errors : Option GoError → List GoError
  unfolding is_ignorable_sync_error
  sync_errors none = []
  sync_errors (some e) = if is_ignorable_sync_error e then [] else e ∷ []

  unfoldable pub with_error : Option GoError → List GoError → List GoError
  with_error none errs = errs
  with_error (some e) errs = errs ++ e ∷ []

  -- The loop over the closers, from the errors that were kept.
  unfoldable pub close_each : List Sink → List GoError × W → List GoError × W
  unfolding with_error
  close_each [] (errs, w) = (errs, w)
  close_each (c ∷ closers) (errs, w) =
      let (failed, w') = lib.close c w in close_each closers (with_error failed errs, w')

  -- Close. The error of errors.Join is the list of its errors, empty for nil.
  unfoldable pub close : Option ManagedLogger → W → List GoError × W
  unfolding sync_errors close_each
  close none w = ([], w)
  close (some m) w =
      let (failed, w') = lib.sync m.sinks w in close_each m.closers (sync_errors failed, w')
