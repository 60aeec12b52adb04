-- ===== src/Config/FlagSet/Fields.antt =====
-- The fields of the configuration after the flags are parsed, in Load of internal/config/config.go.
use toyotaview.Common.{ℕ, ℤ, Bool, false, Option, some, Str, str, Map, lookup, Duration}
use toyotaview.Config.Types.{SmartcarConfig, StorageConfig, LoggingConfig, OtelConfig}
use toyotaview.Config.Defaults.{Flags}
use toyotaview.Config.FlagSet.{FlagValue, text, duration, int, bool, float}

unfoldable pub text_or : Str → Option FlagValue → Str
text_or old (some (text v)) = v
text_or old _ = old

unfoldable pub duration_or : Duration → Option FlagValue → Duration
duration_or old (some (duration v)) = v
duration_or old _ = old

unfoldable pub int_or : ℤ → Option FlagValue → ℤ
int_or old (some (int v)) = v
int_or old _ = old

unfoldable pub bool_or : Bool → Option FlagValue → Bool
bool_or old (some (bool v)) = v
bool_or old _ = old

unfoldable pub float_or : ℕ → Option FlagValue → ℕ
float_or old (some (float v)) = v
float_or old _ = old

-- What the variables hold after the parse: the values of the flags by name, and what they held where
-- the flag is not in the map.
module _ (f : Flags) (values : Map FlagValue) where
  unfoldable pub smartcar_of : SmartcarConfig
  unfolding text_or duration_or int_or bool_or float_or
  smartcar_of = record {
    client_id = text_or f.config.smartcar.client_id (lookup (str "smartcar-client-id") values);
    client_secret =
        text_or f.config.smartcar.client_secret (lookup (str "smartcar-client-secret") values);
    user_id = text_or f.config.smartcar.user_id (lookup (str "smartcar-user-id") values);
    iam_base_url =
        text_or f.config.smartcar.iam_base_url (lookup (str "smartcar-iam-base-url") values);
    vehicle_base_url =
        text_or f.config.smartcar.vehicle_base_url
          (lookup (str "smartcar-vehicle-base-url") values);
    vehicle_ids = f.config.smartcar.vehicle_ids;
    signal_codes = f.config.smartcar.signal_codes;
    unit_system =
        text_or f.config.smartcar.unit_system (lookup (str "smartcar-unit-system") values);
    timeout = duration_or f.config.smartcar.timeout (lookup (str "smartcar-timeout") values);
    max_retries = int_or f.config.smartcar.max_retries (lookup (str "smartcar-max-retries") values);
  }

  unfoldable pub logging_of : LoggingConfig
  unfolding text_or duration_or int_or bool_or float_or
  logging_of = record {
    file = text_or f.config.logging.file (lookup (str "log-file") values);
    level = text_or f.config.logging.level (lookup (str "log-level") values);
    max_size_mb = int_or f.config.logging.max_size_mb (lookup (str "log-max-size-mb") values);
    max_backups = int_or f.config.logging.max_backups (lookup (str "log-max-backups") values);
    max_age_days = int_or f.config.logging.max_age_days (lookup (str "log-max-age-days") values);
    compress = bool_or f.config.logging.compress (lookup (str "log-compress") values);
    add_stdout = bool_or f.config.logging.add_stdout (lookup (str "log-add-stdout") values);
  }

  unfoldable pub storage_of : StorageConfig
  unfolding text_or duration_or int_or bool_or float_or
  storage_of = record {
    driver = text_or f.config.storage.driver (lookup (str "storage-driver") values);
    sqlite = record {
      path = text_or f.config.storage.sqlite.path (lookup (str "sqlite-path") values);
      wipe_on_start =
          bool_or f.config.storage.sqlite.wipe_on_start
            (lookup (str "sqlite-wipe-on-start") values);
    };
    postgres = record {
      host = text_or f.config.storage.postgres.host (lookup (str "postgres-host") values);
      port = int_or f.config.storage.postgres.port (lookup (str "postgres-port") values);
      user = text_or f.config.storage.postgres.user (lookup (str "postgres-user") values);
      password =
          text_or f.config.storage.postgres.password (lookup (str "postgres-password") values);
      database =
          text_or f.config.storage.postgres.database (lookup (str "postgres-database") values);
      ssl_mode =
          text_or f.config.storage.postgres.ssl_mode (lookup (str "postgres-ssl-mode") values);
      migrate_on_start =
          bool_or f.config.storage.postgres.migrate_on_start
            (lookup (str "postgres-migrate-on-start") values);
    };
  }

  unfoldable pub otel_of : OtelConfig
  unfolding text_or duration_or int_or bool_or float_or
  otel_of = record {
    enabled = bool_or f.config.otel.enabled (lookup (str "otel-enabled") values);
    service_name = text_or f.config.otel.service_name (lookup (str "otel-service-name") values);
    service_version =
        text_or f.config.otel.service_version (lookup (str "otel-service-version") values);
    endpoint = text_or f.config.otel.endpoint (lookup (str "otel-endpoint") values);
    insecure = bool_or f.config.otel.insecure (lookup (str "otel-insecure") values);
    timeout = duration_or f.config.otel.timeout (lookup (str "otel-timeout") values);
    sample_ratio = float_or f.config.otel.sample_ratio (lookup (str "otel-sample-ratio") values);
    ca_file = text_or f.config.otel.ca_file (lookup (str "otel-ca-file") values);
    client_cert_file =
        text_or f.config.otel.client_cert_file (lookup (str "otel-client-cert-file") values);
    client_key_file =
        text_or f.config.otel.client_key_file (lookup (str "otel-client-key-file") values);
    server_name = text_or f.config.otel.server_name (lookup (str "otel-server-name") values);
  }

  unfoldable pub flags_of : Flags
  unfolding smartcar_of logging_of storage_of otel_of text_or duration_or bool_or
  flags_of = record {
    config = record {
      addr = text_or f.config.addr (lookup (str "addr") values);
      read_header_timeout =
          duration_or f.config.read_header_timeout (lookup (str "read-header-timeout") values);
      read_timeout = duration_or f.config.read_timeout (lookup (str "read-timeout") values);
      write_timeout = duration_or f.config.write_timeout (lookup (str "write-timeout") values);
      idle_timeout = duration_or f.config.idle_timeout (lookup (str "idle-timeout") values);
      shutdown_timeout =
          duration_or f.config.shutdown_timeout (lookup (str "shutdown-timeout") values);
      auth = record {
        session_ttl =
            duration_or f.config.auth.session_ttl (lookup (str "auth-session-ttl") values);
      };
      dev = record {
        enabled = bool_or f.config.dev.enabled (lookup (str "dev-mode") values);
        scenario = text_or f.config.dev.scenario (lookup (str "dev-scenario") values);
      };
      print_config = bool_or false (lookup (str "print-config") values);
      smartcar = smartcar_of;
      storage = storage_of;
      logging = logging_of;
      otel = otel_of;
    };
    vehicle_ids = text_or f.vehicle_ids (lookup (str "smartcar-vehicle-ids") values);
    signal_codes = text_or f.signal_codes (lookup (str "smartcar-signal-codes") values);
  }
