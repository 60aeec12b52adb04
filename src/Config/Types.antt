-- ===== src/Config/Types.antt =====
-- The records of internal/config/config.go.
use toyotaview.Common.{ℕ, ℤ, Bool, List, Str, Duration}

pub record AuthConfig : Type 0 where
  pub session_ttl : Duration

pub record DevConfig : Type 0 where
  pub enabled : Bool
  pub scenario : Str

pub record SmartcarConfig : Type 0 where
  pub client_id : Str
  pub client_secret : Str
  pub user_id : Str
  pub iam_base_url : Str
  pub vehicle_base_url : Str
  pub vehicle_ids : List Str
  pub signal_codes : List Str
  pub unit_system : Str
  pub timeout : Duration
  pub max_retries : ℤ

pub record SqliteConfig : Type 0 where
  pub path : Str
  pub wipe_on_start : Bool

pub record PostgresConfig : Type 0 where
  pub host : Str
  pub port : ℤ
  pub user : Str
  pub password : Str
  pub database : Str
  pub ssl_mode : Str
  pub migrate_on_start : Bool

pub record StorageConfig : Type 0 where
  pub driver : Str
  pub sqlite : SqliteConfig
  pub postgres : PostgresConfig

pub record LoggingConfig : Type 0 where
  pub file : Str
  pub level : Str
  pub max_size_mb : ℤ
  pub max_backups : ℤ
  pub max_age_days : ℤ
  pub compress : Bool
  pub add_stdout : Bool

-- A float64 is kept as its 64 bits.
pub record OtelConfig : Type 0 where
  pub enabled : Bool
  pub service_name : Str
  pub service_version : Str
  pub endpoint : Str
  pub insecure : Bool
  pub timeout : Duration
  pub sample_ratio : ℕ
  pub ca_file : Str
  pub client_cert_file : Str
  pub client_key_file : Str
  pub server_name : Str

pub record Config : Type 0 where
  pub addr : Str
  pub read_header_timeout : Duration
  pub read_timeout : Duration
  pub write_timeout : Duration
  pub idle_timeout : Duration
  pub shutdown_timeout : Duration
  pub auth : AuthConfig
  pub dev : DevConfig
  pub print_config : Bool
  pub smartcar : SmartcarConfig
  pub storage : StorageConfig
  pub logging : LoggingConfig
  pub otel : OtelConfig
