-- ===== src/Config/FlagSet.antt =====
-- The flags that Load of internal/config/config.go registers.
pub mod Fields
pub mod Laws
use toyotaview.Common.{ℕ, ℤ, Bool, false, List, [], ◌∷◌, ◌++◌, Str, str, String, Duration}
use toyotaview.Config.Defaults.{Flags}

-- The values of package flag, by the method that registers them. A float64 is its 64 bits.
pub data FlagValue : Type 0 where
  text : Str → FlagValue
  duration : Duration → FlagValue
  int : ℤ → FlagValue
  bool : Bool → FlagValue
  float : ℕ → FlagValue

-- A flag with its default.
pub record Definition : Type 0 where
  pub name : Str
  pub default : FlagValue
  pub usage : String

unfoldable pub smartcar_flags : Flags → List Definition
smartcar_flags f =
    record {
      name = str "auth-session-ttl";
      default = duration f.config.auth.session_ttl;
      usage = "Authenticated browser session lifetime";
    }
    ∷ record {
      name = str "smartcar-client-id";
      default = text f.config.smartcar.client_id;
      usage = "Smartcar client id";
    }
    ∷ record {
      name = str "smartcar-client-secret";
      default = text f.config.smartcar.client_secret;
      usage = "Smartcar client secret";
    }
    ∷ record {
      name = str "smartcar-user-id";
      default = text f.config.smartcar.user_id;
      usage = "Smartcar user id";
    }
    ∷ record {
      name = str "smartcar-iam-base-url";
      default = text f.config.smartcar.iam_base_url;
      usage = "Smartcar IAM base URL";
    }
    ∷ record {
      name = str "smartcar-vehicle-base-url";
      default = text f.config.smartcar.vehicle_base_url;
      usage = "Smartcar vehicle API base URL";
    }
    ∷ record {
      name = str "smartcar-vehicle-ids";
      default = text f.vehicle_ids;
      usage = "Comma-separated vehicle ID allowlist";
    }
    ∷ record {
      name = str "smartcar-signal-codes";
      default = text f.signal_codes;
      usage = "Comma-separated signal code allowlist";
    }
    ∷ record {
      name = str "smartcar-unit-system";
      default = text f.config.smartcar.unit_system;
      usage = "Smartcar unit system";
    }
    ∷ record {
      name = str "smartcar-timeout";
      default = duration f.config.smartcar.timeout;
      usage = "Smartcar client timeout";
    }
    ∷ record {
      name = str "smartcar-max-retries";
      default = int f.config.smartcar.max_retries;
      usage = "Smartcar transient retry count";
    }
    ∷ []

unfoldable pub server_flags : Flags → List Definition
server_flags f =
    record { name = str "addr"; default = text f.config.addr; usage = "HTTP listen address" }
    ∷ record {
      name = str "dev-mode";
      default = bool f.config.dev.enabled;
      usage = "Enable mocked Smartcar backend for local development";
    }
    ∷ record {
      name = str "dev-scenario";
      default = text f.config.dev.scenario;
      usage = "Mocked Smartcar scenario for dev mode";
    }
    ∷ record {
      name = str "read-header-timeout";
      default = duration f.config.read_header_timeout;
      usage = "HTTP read header timeout";
    }
    ∷ record {
      name = str "read-timeout";
      default = duration f.config.read_timeout;
      usage = "HTTP read timeout";
    }
    ∷ record {
      name = str "write-timeout";
      default = duration f.config.write_timeout;
      usage = "HTTP write timeout";
    }
    ∷ record {
      name = str "idle-timeout";
      default = duration f.config.idle_timeout;
      usage = "HTTP idle timeout";
    }
    ∷ record {
      name = str "shutdown-timeout";
      default = duration f.config.shutdown_timeout;
      usage = "Graceful shutdown timeout";
    }
    ∷ []

unfoldable pub logging_flags : Flags → List Definition
logging_flags f =
    record { name = str "log-file"; default = text f.config.logging.file; usage = "Log file path" }
    ∷ record { name = str "log-level"; default = text f.config.logging.level; usage = "Log level" }
    ∷ record {
      name = str "log-max-size-mb";
      default = int f.config.logging.max_size_mb;
      usage = "Log max size";
    }
    ∷ record {
      name = str "log-max-backups";
      default = int f.config.logging.max_backups;
      usage = "Log max backups";
    }
    ∷ record {
      name = str "log-max-age-days";
      default = int f.config.logging.max_age_days;
      usage = "Log max age in days";
    }
    ∷ record {
      name = str "log-compress";
      default = bool f.config.logging.compress;
      usage = "Compress old logs";
    }
    ∷ record {
      name = str "log-add-stdout";
      default = bool f.config.logging.add_stdout;
      usage = "Duplicate logs to stdout";
    }
    ∷ []

unfoldable pub storage_flags : Flags → List Definition
storage_flags f =
    record {
      name = str "storage-driver";
      default = text f.config.storage.driver;
      usage = "Durable storage driver: sqlite or postgres";
    }
    ∷ record {
      name = str "sqlite-path";
      default = text f.config.storage.sqlite.path;
      usage = "SQLite database path for local development";
    }
    ∷ record {
      name = str "sqlite-wipe-on-start";
      default = bool f.config.storage.sqlite.wipe_on_start;
      usage = "Wipe the SQLite database before startup";
    }
    ∷ record {
      name = str "postgres-host";
      default = text f.config.storage.postgres.host;
      usage = "Postgres host";
    }
    ∷ record {
      name = str "postgres-port";
      default = int f.config.storage.postgres.port;
      usage = "Postgres port";
    }
    ∷ record {
      name = str "postgres-user";
      default = text f.config.storage.postgres.user;
      usage = "Postgres user";
    }
    ∷ record {
      name = str "postgres-password";
      default = text f.config.storage.postgres.password;
      usage = "Postgres password";
    }
    ∷ record {
      name = str "postgres-database";
      default = text f.config.storage.postgres.database;
      usage = "Postgres database";
    }
    ∷ record {
      name = str "postgres-ssl-mode";
      default = text f.config.storage.postgres.ssl_mode;
      usage = "Postgres sslmode";
    }
    ∷ record {
      name = str "postgres-migrate-on-start";
      default = bool f.config.storage.postgres.migrate_on_start;
      usage = "Run Postgres migrations during startup";
    }
    ∷ []

unfoldable pub otel_flags : Flags → List Definition
otel_flags f =
    record {
      name = str "otel-enabled";
      default = bool f.config.otel.enabled;
      usage = "Enable OTEL";
    }
    ∷ record {
      name = str "otel-service-name";
      default = text f.config.otel.service_name;
      usage = "OTEL service name";
    }
    ∷ record {
      name = str "otel-service-version";
      default = text f.config.otel.service_version;
      usage = "OTEL service version";
    }
    ∷ record {
      name = str "otel-endpoint";
      default = text f.config.otel.endpoint;
      usage = "OTEL endpoint";
    }
    ∷ record {
      name = str "otel-insecure";
      default = bool f.config.otel.insecure;
      usage = "Use insecure OTEL";
    }
    ∷ record {
      name = str "otel-timeout";
      default = duration f.config.otel.timeout;
      usage = "OTEL timeout";
    }
    ∷ record {
      name = str "otel-sample-ratio";
      default = float f.config.otel.sample_ratio;
      usage = "OTEL sample ratio";
    }
    ∷ record {
      name = str "otel-ca-file";
      default = text f.config.otel.ca_file;
      usage = "OTEL CA bundle";
    }
    ∷ record {
      name = str "otel-client-cert-file";
      default = text f.config.otel.client_cert_file;
      usage = "OTEL client cert file";
    }
    ∷ record {
      name = str "otel-client-key-file";
      default = text f.config.otel.client_key_file;
      usage = "OTEL client key file";
    }
    ∷ record {
      name = str "otel-server-name";
      default = text f.config.otel.server_name;
      usage = "OTEL TLS server name";
    }
    ∷ []

-- All flags, in the order of their registration.
unfoldable pub flag_set : Flags → List Definition
unfolding smartcar_flags server_flags logging_flags storage_flags otel_flags
flag_set f =
    smartcar_flags f
    ++ (server_flags f
        ++ (logging_flags f
            ++ (storage_flags f
                ++ (otel_flags f
                    ++ record {
                      name = str "print-config";
                      default = bool false;
                      usage = "Print redacted config and exit";
                    }
                      ∷ []))))
