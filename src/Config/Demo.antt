-- ===== src/Config/Demo.antt =====
-- A small configuration, and the run of Load that returns it.
use toyotaview.Common.{
  List, Str, new_error, pos, true, false, none, [], ◌∷◌, str, Result, ok, err, ◌≡◌, refl, ◌∙◌,
  seconds, lookup, mem, str_eq,
}
use toyotaview.Common.Text.{
  trim_space, skip_space, start_width, end_width, split, push_front, to_lower, is_ascii, lower_byte,
}
use toyotaview.Config.Types.{Config}
use toyotaview.Config.Values.{
  parse_csv, parsed_env_or_default, env_or_default, keep_parts, normalize, normalize_dev_scenario,
}
use toyotaview.Config.Defaults.{
  Parsers, Flags, flag_defaults, smartcar_defaults, duration, int, bool, text, parse_int,
  logging_defaults, storage_defaults, otel_defaults,
}
use toyotaview.Config.FlagSet.{Definition}
use toyotaview.Config.FlagSet.Laws.{values_of}
use toyotaview.Config.Load.{Parsed, parsed, loaded, load, checked, normalize_flags}
use toyotaview.Config.Load.Values.{load-values}
use toyotaview.Config.Validate.{
  Library, validate, validate_access, validate_smartcar, check_url, absolute_only, url_error,
  parse_url, is_float_above_one, is_float_negative, is_number, validate_dev_scenario,
  validate_logging, validate_otel, validate_postgres, validate_postgres_ssl_mode, validate_server,
  validate_storage,
}

abbrev pub demo_library : Library
demo_library = record {
  parse_url = λ value.
      ok (record { scheme = str "https"; user = []; host = value; path = []; raw_query = [] });
  split_host_port = λ value. none;
  int_text = λ n. [];
  float_text = λ bits. [];
}

abbrev pub demo : Config
demo = record {
  addr = str "127.0.0.1:8080";
  read_header_timeout = seconds 5;
  read_timeout = seconds 15;
  write_timeout = seconds 30;
  idle_timeout = seconds 60;
  shutdown_timeout = seconds 10;
  auth = record { session_ttl = seconds 43_200 };
  dev = record { enabled = false; scenario = str "happy" };
  print_config = false;
  smartcar = record {
    client_id = str "client-1234";
    client_secret = str "secret";
    user_id = str "user-567890";
    iam_base_url = str "iam.smartcar.com";
    vehicle_base_url = str "vehicle.api.smartcar.com";
    vehicle_ids = [];
    signal_codes = str "service-records" ∷ [];
    unit_system = str "imperial";
    timeout = seconds 20;
    max_retries = pos 2;
  };
  storage = record {
    driver = str "sqlite";
    sqlite = record { path = str "./toyotaview.sqlite3"; wipe_on_start = false };
    postgres = record {
      host = [];
      port = pos 5_432;
      user = [];
      password = str "hunter2";
      database = [];
      ssl_mode = str "require";
      migrate_on_start = true;
    };
  };
  logging = record {
    file = str "./smartcar-4runner.log";
    level = str "info";
    max_size_mb = pos 10;
    max_backups = pos 5;
    max_age_days = pos 30;
    compress = true;
    add_stdout = false;
  };
  otel = record {
    enabled = true;
    service_name = str "smartcar-4runner";
    service_version = str "dev";
    endpoint = str "localhost:4318";
    insecure = false;
    timeout = seconds 10;
    sample_ratio = 0x3FF0_0000_0000_0000;
    ca_file = str "ca.pem";
    client_cert_file = [];
    client_key_file = [];
    server_name = [];
  };
}

abbrev pub demo_parsers : Parsers
demo_parsers = record {
  duration = λ value. ok (seconds 1);
  bool = λ value. ok true;
  float = λ value. ok 0;
  atoi_error = λ value. new_error "invalid syntax";
  lower_unicode = λ value. value;
}

abbrev pub demo_values : Flags
demo_values = record { config = demo; vehicle_ids = []; signal_codes = str "service-records" }

-- The arguments set every flag to the small configuration.
abbrev pub demo_flags : List Definition → List Str → Parsed
demo_flags ds args = parsed (values_of demo_values)

unfoldable pub flags_or : Flags → Result Flags → Flags
flags_or f (ok g) = g
flags_or f (err e) = f

abbrev pub demo_defaults : Flags
demo_defaults = flags_or demo_values (flag_defaults demo_parsers [])

pub demo_defaults-known : flag_defaults demo_parsers [] ≡ ok demo_defaults
unfolding flags_or smartcar_defaults duration int bool text parse_int logging_defaults
    storage_defaults otel_defaults flag_defaults parsed_env_or_default env_or_default lookup
demo_defaults-known = refl

checked-demo :
    checked demo_parsers demo_library demo_flags
      (normalize_flags demo_parsers demo_library demo_flags demo_values)
    ≡ loaded demo
unfolding checked normalize_flags smartcar_defaults duration int bool text parse_int
    logging_defaults storage_defaults otel_defaults flag_defaults parsed_env_or_default
    env_or_default keep_parts parse_csv normalize normalize_dev_scenario validate_access
    validate_smartcar check_url absolute_only url_error parse_url is_float_above_one
    is_float_negative is_number validate_dev_scenario validate_logging validate_otel
    validate_postgres validate_postgres_ssl_mode validate_server validate_storage validate split
    push_front trim_space skip_space start_width end_width to_lower is_ascii lower_byte lookup mem
    str_eq
checked-demo = refl

pub load-demo : load demo_parsers demo_library demo_flags [] [] ≡ loaded demo
load-demo =
    (load-values demo_parsers demo_library demo_flags [] [] demo_defaults demo_values
      demo_defaults-known refl).1
    ∙ checked-demo
