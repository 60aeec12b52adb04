-- ===== src/Config/Load.antt =====
-- Load of internal/config/config.go: the environment, the flags, the normal forms, the validation.
pub mod Laws
pub mod Values
use toyotaview.Common.{none, some, List, Str, Map, GoError, wrapped, Result, ok, err}
use toyotaview.Config.Types.{Config, DevConfig, SmartcarConfig, StorageConfig, PostgresConfig}
use toyotaview.Config.Values.{parse_csv, normalize, normalize_dev_scenario}
use toyotaview.Config.Defaults.{Parsers, Flags, flag_defaults}
use toyotaview.Config.FlagSet.{FlagValue, Definition, flag_set}
use toyotaview.Config.FlagSet.Fields.{flags_of}
use toyotaview.Config.Validate.{Library, validate}

-- What `fs.Parse(args)` leaves: the values of the flags, the usage text if help was asked for, or an
-- error.
pub data Parsed : Type 0 where
  parsed : Map FlagValue → Parsed
  help : Str → Parsed
  refused : GoError → Parsed

pub data Loaded : Type 0 where
  loaded : Config → Loaded
  help_error : Str → Loaded
  failed : GoError → Loaded

module _ (parsers : Parsers) (lib : Library)
    (parse_flags : List Definition → List Str → Parsed) where
  -- The flags' values in normal form.
  unfoldable pub normalize_flags : Flags → Config
  normalize_flags f =
      let c : Config = f.config in
      let smartcar : SmartcarConfig = c.smartcar in
      let dev : DevConfig = c.dev in
      let storage : StorageConfig = c.storage in
      let postgres : PostgresConfig = storage.postgres in
      record c {
        smartcar = record smartcar {
          vehicle_ids = parse_csv f.vehicle_ids;
          signal_codes = parse_csv f.signal_codes;
        };
        dev = record dev { scenario = normalize_dev_scenario parsers.lower_unicode dev.scenario };
        storage = record storage {
          driver = normalize parsers.lower_unicode storage.driver;
          postgres = record postgres {
            ssl_mode = normalize parsers.lower_unicode postgres.ssl_mode;
          };
        };
      }

  unfoldable pub checked : Config → Loaded
  checked c = elim (validate lib c) [ some e ↦ failed e | none ↦ loaded c ]

  unfoldable pub after_parse : Flags → Parsed → Loaded
  after_parse f (parsed values) = checked (normalize_flags (flags_of f values))
  after_parse f (help usage) = help_error usage
  after_parse f (refused e) = failed (wrapped "parse flags" e)

  unfoldable pub after_defaults : List Str → Result Flags → Loaded
  after_defaults args (err e) = failed e
  after_defaults args (ok f) = after_parse f (parse_flags (flag_set f) args)

  unfoldable pub load : List Str → Map Str → Loaded
  load args env = after_defaults args (flag_defaults parsers env)
