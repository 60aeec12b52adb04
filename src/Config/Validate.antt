-- ===== src/Config/Validate.antt =====
-- Validate of internal/config/config.go. net.SplitHostPort, url.Parse and the printing of numbers
-- are parameters.
pub mod Laws
use toyotaview.Common.{
  ℕ, ◌%◌, ◌^◌, ltb, leb, ◌==◌, ℤ, pos, ltb_ℤ, leb_ℤ, Bool, true, false, not, ◌&&◌, ◌||◌, Option,
  none, some, List, [], ◌∷◌, Str, str, str_eq, mem, is_empty, GoError, sentinel, new_error,
  formatted, formatted_with, wrapped, Result, ok, err, missing_client_id, missing_client_secret,
  missing_user_id, if◌then◌else◌,
}
use toyotaview.Common.Text.{trim_space}
use toyotaview.Smartcar.Http.{Url}
use toyotaview.Config.Types.{
  Config, DevConfig, SmartcarConfig, StorageConfig, PostgresConfig, LoggingConfig, OtelConfig,
}

-- What the code asks of Go's library.
pub record Library : Type 0 where
  pub parse_url : Str → Result Url
  pub split_host_port : Str → Option GoError
  pub int_text : ℤ → Str
  pub float_text : ℕ → Str

-- Checks in order: the first error stands.
abbrev pub first_error : List (Option GoError) → Option GoError
first_error [] = none
first_error (none ∷ checks) = first_error checks
first_error (some e ∷ checks) = some e

abbrev pub reject_if : Bool → GoError → Option GoError
reject_if true e = some e
reject_if false e = none

-- `x <= 0`.
abbrev pub is_not_positive : ℤ → Bool
is_not_positive x = leb_ℤ x (pos 0)

abbrev pub is_negative : ℤ → Bool
is_negative x = ltb_ℤ x (pos 0)

-- The order of a float64 against 0 and 1, from its bits: above the exponent of infinity it is not
-- a number, and no order holds.
unfoldable pub is_number : ℕ → Bool
is_number bits = leb (bits % 2 ^ 63) 0x7FF0_0000_0000_0000

unfoldable pub is_float_negative : ℕ → Bool
is_float_negative bits = is_number bits && (leb (2 ^ 63) bits && not (bits % 2 ^ 63 == 0))

unfoldable pub is_float_above_one : ℕ → Bool
is_float_above_one bits = is_number bits && (ltb bits (2 ^ 63) && ltb 0x3FF0_0000_0000_0000 bits)

abbrev pub dev_scenarios : List Str
dev_scenarios = str "happy" ∷ str "partial" ∷ str "empty" ∷ str "failure" ∷ []

abbrev pub unit_systems : List Str
unit_systems = str "imperial" ∷ str "metric" ∷ []

abbrev pub log_levels : List Str
log_levels = str "debug" ∷ str "info" ∷ str "warn" ∷ str "error" ∷ []

abbrev pub ssl_modes : List Str
ssl_modes =
    str "disable"
    ∷ str "allow"
    ∷ str "prefer"
    ∷ str "require"
    ∷ str "verify-ca"
    ∷ str "verify-full"
    ∷ []

unfoldable pub validate_dev_scenario : Str → Option GoError
validate_dev_scenario value =
    reject_if (not (mem value dev_scenarios)) (formatted "invalid dev scenario %q" (value ∷ []))

unfoldable pub validate_postgres_ssl_mode : Str → Option GoError
validate_postgres_ssl_mode value =
    reject_if (not (mem value ssl_modes)) (formatted "invalid postgres ssl mode %q" (value ∷ []))

unfoldable pub absolute_only : Result Url → Result Url
absolute_only (err e) = err e
absolute_only (ok u) =
    if is_empty u.scheme || is_empty u.host then err (new_error "must be an absolute URL") else ok u

unfoldable pub url_error : (GoError → GoError) → Result Url → Option GoError
url_error describe (err e) = some (describe e)
url_error describe (ok u) = none

module _ (lib : Library) where
  unfoldable pub parse_url : Str → Result Url
  unfolding absolute_only
  parse_url value = absolute_only (lib.parse_url value)

  unfoldable pub check_url : Str → (GoError → GoError) → Option GoError
  unfolding parse_url url_error
  check_url value describe = url_error describe (parse_url value)

  -- The credentials are not asked for in development mode.
  unfoldable pub validate_access : DevConfig → SmartcarConfig → Option GoError
  validate_access d s =
      if d.enabled
      then validate_dev_scenario d.scenario
      else first_error (
          reject_if (is_empty s.client_id) (sentinel missing_client_id)
          ∷ reject_if (is_empty s.client_secret) (sentinel missing_client_secret)
          ∷ reject_if (is_empty s.user_id) (sentinel missing_user_id)
          ∷ [])

  unfoldable pub validate_smartcar : SmartcarConfig → Option GoError
  validate_smartcar s = first_error (
      check_url s.iam_base_url (wrapped "validate smartcar iam base url")
      ∷ check_url s.vehicle_base_url (wrapped "validate smartcar vehicle base url")
      ∷ reject_if (is_empty s.signal_codes) (new_error "smartcar signal codes must not be empty")
      ∷ reject_if (not (mem s.unit_system unit_systems))
          (formatted "invalid smartcar unit system %q" (s.unit_system ∷ []))
      ∷ reject_if (is_not_positive s.timeout)
          (new_error "smartcar timeout must be greater than zero")
      ∷ reject_if (is_negative s.max_retries)
          (new_error "smartcar max retries must be zero or greater")
      ∷ [])

  unfoldable pub validate_server : Config → Option GoError
  validate_server c = first_error (
      reject_if (is_empty c.addr) (new_error "addr is required")
      ∷ elim (lib.split_host_port c.addr) [
        | some e ↦ some (formatted_with "invalid addr %q: %w" (c.addr ∷ []) e)
        | none ↦ none
      ]
      ∷ reject_if
          (is_not_positive c.read_header_timeout
            || is_not_positive c.read_timeout
            || is_not_positive c.write_timeout
            || is_not_positive c.idle_timeout)
          (new_error "server timeouts must be greater than zero")
      ∷ reject_if (is_not_positive c.shutdown_timeout)
          (new_error "shutdown timeout must be greater than zero")
      ∷ [])

  unfoldable pub validate_logging : LoggingConfig → Option GoError
  validate_logging l = first_error (
      reject_if (not (mem l.level log_levels)) (formatted "invalid log level %q" (l.level ∷ []))
      ∷ reject_if (is_empty l.file) (new_error "log file is required")
      ∷ reject_if
          (is_not_positive l.max_size_mb || is_negative l.max_backups || is_negative l.max_age_days)
          (new_error "invalid log rotation settings")
      ∷ [])

  unfoldable pub validate_postgres : PostgresConfig → Option GoError
  validate_postgres p = first_error (
      reject_if (is_empty (trim_space p.host)) (new_error "postgres host is required")
      ∷ reject_if (is_not_positive p.port || ltb_ℤ (pos 65_535) p.port)
          (formatted "invalid postgres port %d" (lib.int_text p.port ∷ []))
      ∷ reject_if (is_empty (trim_space p.user)) (new_error "postgres user is required")
      ∷ reject_if (is_empty p.password) (new_error "postgres password is required")
      ∷ reject_if (is_empty (trim_space p.database)) (new_error "postgres database is required")
      ∷ validate_postgres_ssl_mode p.ssl_mode
      ∷ [])

  unfoldable pub validate_storage : StorageConfig → Option GoError
  validate_storage s =
      if str_eq s.driver (str "sqlite")
      then reject_if (is_empty (trim_space s.sqlite.path)) (new_error "sqlite path is required")
      else if str_eq s.driver (str "postgres")
      then validate_postgres s.postgres
      else some (formatted "invalid storage driver %q" (s.driver ∷ []))

  unfoldable pub validate_otel : OtelConfig → Option GoError
  validate_otel o = first_error (
      reject_if (is_empty o.service_name) (new_error "otel service name is required")
      ∷ reject_if (is_empty o.service_version) (new_error "otel service version is required")
      ∷ reject_if (is_not_positive o.timeout) (new_error "otel timeout must be greater than zero")
      ∷ reject_if (is_float_negative o.sample_ratio || is_float_above_one o.sample_ratio) (
          formatted "otel sample ratio must be between 0 and 1, got %v"
            (lib.float_text o.sample_ratio ∷ []))
      ∷ reject_if
          (not (is_empty o.client_cert_file) && is_empty o.client_key_file
            || is_empty o.client_cert_file && not (is_empty o.client_key_file))
          (new_error "otel client cert and key must both be set")
      ∷ [])

  unfoldable pub validate : Config → Option GoError
  validate c = first_error (
      reject_if (is_not_positive c.auth.session_ttl)
        (new_error "auth session ttl must be greater than zero")
      ∷ validate_access c.dev c.smartcar
      ∷ validate_smartcar c.smartcar
      ∷ validate_server c
      ∷ validate_logging c.logging
      ∷ validate_storage c.storage
      ∷ validate_otel c.otel
      ∷ [])
