-- ===== src/Config/Defaults.antt =====
-- The defaults that Load of internal/config/config.go reads from the environment, section by section
-- in the order in which the code reads them. The parsers of Go's library are parameters.
use toyotaview.Common.{
  ◌>>=◌, ℕ, ℤ, pos, Bool, true, false, none, some, List, [], ◌∷◌, Str, str, Map, GoError, Result,
  ok, err, Duration, seconds, hours,
}
use toyotaview.Common.Text.{join}
use toyotaview.Common.Number.{atoi}
use toyotaview.Config.Types.{Config, SmartcarConfig, StorageConfig, LoggingConfig, OtelConfig}
use toyotaview.Config.Values.{env_or_default, parsed_env_or_default, normalize}

-- time.ParseDuration, strconv.ParseBool, strconv.ParseFloat and the error of strconv.Atoi.
pub record Parsers : Type 0 where
  pub duration : Str → Result Duration
  pub bool : Str → Result Bool
  pub float : Str → Result ℕ
  pub atoi_error : Str → GoError
  pub lower_unicode : Str → Str

-- `_defaultSignalCodes`.
abbrev pub default_signal_codes : List Str
default_signal_codes =
    str "odometer-traveleddistance"
    ∷ str "internalcombustionengine-fuellevel"
    ∷ str "internalcombustionengine-amountremaining"
    ∷ str "internalcombustionengine-range"
    ∷ str "internalcombustionengine-oillife"
    ∷ str "diagnostics-dtccount"
    ∷ str "diagnostics-dtclist"
    ∷ str "diagnostics-mil"
    ∷ str "diagnostics-brakefluid"
    ∷ str "diagnostics-oilpressure"
    ∷ str "diagnostics-oiltemperature"
    ∷ str "diagnostics-tirepressure"
    ∷ str "service-isinservice"
    ∷ str "service-records"
    ∷ []

-- The values that the flags have before the arguments are parsed: the lists are still text.
pub record Flags : Type 0 where
  pub config : Config
  pub vehicle_ids : Str
  pub signal_codes : Str

-- strconv.Atoi as a call that may fail.
unfoldable pub parse_int : Parsers → Str → Result ℤ
parse_int lib value = elim (atoi value) [ some n ↦ ok n | none ↦ err (lib.atoi_error value) ]

module _ (lib : Parsers) (env : Map Str) where
  unfoldable pub text : Str → Str → Str
  text key fallback = env_or_default env key fallback

  unfoldable pub duration : Str → Duration → Result Duration
  duration key fallback = parsed_env_or_default lib.duration env key fallback

  unfoldable pub int : Str → ℤ → Result ℤ
  int key fallback = parsed_env_or_default (parse_int lib) env key fallback

  unfoldable pub bool : Str → Bool → Result Bool
  bool key fallback = parsed_env_or_default lib.bool env key fallback

  unfoldable pub smartcar_defaults : Result SmartcarConfig
  smartcar_defaults = do
    timeout ← duration (str "SC4R_SMARTCAR_TIMEOUT") (seconds 20)
    max_retries ← int (str "SC4R_SMARTCAR_MAX_RETRIES") (pos 2)
    ok (record {
      client_id = text (str "SC4R_SMARTCAR_CLIENT_ID") [];
      client_secret = text (str "SC4R_SMARTCAR_CLIENT_SECRET") [];
      user_id = text (str "SC4R_SMARTCAR_USER_ID") [];
      iam_base_url = text (str "SC4R_SMARTCAR_IAM_BASE_URL") (str "https://iam.smartcar.com");
      vehicle_base_url =
          text (str "SC4R_SMARTCAR_VEHICLE_BASE_URL") (str "https://vehicle.api.smartcar.com/v3");
      vehicle_ids = [];
      signal_codes = [];
      unit_system = text (str "SC4R_SMARTCAR_UNIT_SYSTEM") (str "imperial");
      timeout = timeout;
      max_retries = max_retries;
    })

  unfoldable pub logging_defaults : Result LoggingConfig
  logging_defaults = do
    max_size_mb ← int (str "SC4R_LOG_MAX_SIZE_MB") (pos 10)
    max_backups ← int (str "SC4R_LOG_MAX_BACKUPS") (pos 5)
    max_age_days ← int (str "SC4R_LOG_MAX_AGE_DAYS") (pos 30)
    compress ← bool (str "SC4R_LOG_COMPRESS") true
    add_stdout ← bool (str "SC4R_LOG_ADD_STDOUT") false
    ok (record {
      file = text (str "SC4R_LOG_FILE") (str "./smartcar-4runner.log");
      level = text (str "SC4R_LOG_LEVEL") (str "info");
      max_size_mb = max_size_mb;
      max_backups = max_backups;
      max_age_days = max_age_days;
      compress = compress;
      add_stdout = add_stdout;
    })

  unfoldable pub storage_defaults : Result StorageConfig
  storage_defaults = do
    wipe_on_start ← bool (str "SC4R_SQLITE_WIPE_ON_START") false
    port ← int (str "SC4R_POSTGRES_PORT") (pos 5_432)
    migrate_on_start ← bool (str "SC4R_POSTGRES_MIGRATE_ON_START") true
    ok (record {
      driver = normalize lib.lower_unicode (text (str "SC4R_STORAGE_DRIVER") []);
      sqlite = record {
        path = text (str "SC4R_SQLITE_PATH") (str "./toyotaview.sqlite3");
        wipe_on_start = wipe_on_start;
      };
      postgres = record {
        host = text (str "SC4R_POSTGRES_HOST") [];
        port = port;
        user = text (str "SC4R_POSTGRES_USER") [];
        password = text (str "SC4R_POSTGRES_PASSWORD") [];
        database = text (str "SC4R_POSTGRES_DATABASE") [];
        ssl_mode =
            normalize lib.lower_unicode (text (str "SC4R_POSTGRES_SSL_MODE") (str "require"));
        migrate_on_start = migrate_on_start;
      };
    })

  unfoldable pub otel_defaults : Result OtelConfig
  otel_defaults = do
    enabled ← bool (str "SC4R_OTEL_ENABLED") false
    insecure ← bool (str "SC4R_OTEL_INSECURE") true
    timeout ← duration (str "SC4R_OTEL_TIMEOUT") (seconds 10)
    sample_ratio ←
        parsed_env_or_default lib.float env (str "SC4R_OTEL_SAMPLE_RATIO") 0x3FF0_0000_0000_0000
    ok (record {
      enabled = enabled;
      service_name = text (str "SC4R_OTEL_SERVICE_NAME") (str "smartcar-4runner");
      service_version = text (str "SC4R_OTEL_SERVICE_VERSION") (str "dev");
      endpoint = text (str "SC4R_OTEL_ENDPOINT") (str "localhost:4318");
      insecure = insecure;
      timeout = timeout;
      sample_ratio = sample_ratio;
      ca_file = text (str "SC4R_OTEL_CA_FILE") [];
      client_cert_file = text (str "SC4R_OTEL_CLIENT_CERT_FILE") [];
      client_key_file = text (str "SC4R_OTEL_CLIENT_KEY_FILE") [];
      server_name = text (str "SC4R_OTEL_SERVER_NAME") [];
    })

  -- All flags at their defaults.
  unfoldable pub flag_defaults : Result Flags
  flag_defaults = do
    smartcar ← smartcar_defaults
    session_ttl ← duration (str "SC4R_AUTH_SESSION_TTL") (hours 12)
    enabled ← bool (str "SC4R_DEV_MODE") false
    read_header_timeout ← duration (str "SC4R_READ_HEADER_TIMEOUT") (seconds 5)
    read_timeout ← duration (str "SC4R_READ_TIMEOUT") (seconds 15)
    write_timeout ← duration (str "SC4R_WRITE_TIMEOUT") (seconds 30)
    idle_timeout ← duration (str "SC4R_IDLE_TIMEOUT") (seconds 60)
    shutdown_timeout ← duration (str "SC4R_SHUTDOWN_TIMEOUT") (seconds 10)
    logging ← logging_defaults
    storage ← storage_defaults
    otel ← otel_defaults
    ok (record {
      config = record {
        addr = text (str "SC4R_ADDR") (str "127.0.0.1:8080");
        read_header_timeout = read_header_timeout;
        read_timeout = read_timeout;
        write_timeout = write_timeout;
        idle_timeout = idle_timeout;
        shutdown_timeout = shutdown_timeout;
        auth = record { session_ttl = session_ttl };
        dev = record { enabled = enabled; scenario = text (str "SC4R_DEV_SCENARIO") (str "happy") };
        print_config = false;
        smartcar = smartcar;
        storage = storage;
        logging = logging;
        otel = otel;
      };
      vehicle_ids = text (str "SC4R_SMARTCAR_VEHICLE_IDS") [];
      signal_codes = text (str "SC4R_SMARTCAR_SIGNAL_CODES") (join b',' default_signal_codes);
    })
