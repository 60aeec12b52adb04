-- ===== src/Config/Validate/Laws.antt =====
-- Which configurations Validate accepts.
use toyotaview.Common.{
  ℤ, pos, ◌≤ℤ◌, ◌<ℤ◌, Bool, true, false, Option, none, [], ◌∷◌, Str, str, str_eq_iff, mem, is_empty,
  GoError, Result, ok, err, ◌↔◌, ◌⊎◌, ◌≡◌, refl, ap, ◌∙◌, arith, wrapped, new_error,
}
use toyotaview.Common.Text.{trim_space}
use toyotaview.Smartcar.Http.{Url}
use toyotaview.Config.Types.{
  Config, DevConfig, SmartcarConfig, StorageConfig, PostgresConfig, LoggingConfig, OtelConfig,
}
use toyotaview.Config.Validate.{
  Library, first_error, reject_if, is_not_positive, is_float_negative, is_float_above_one,
  dev_scenarios, unit_systems, log_levels, ssl_modes, validate_dev_scenario,
  validate_postgres_ssl_mode, absolute_only, url_error, parse_url, check_url, validate_access,
  validate_smartcar, validate_server, validate_logging, validate_postgres, validate_storage,
  validate_otel, validate,
}

-- An address that the client can be made with.
abbrev pub IsAbsolute : Library → Str → Type 0
IsAbsolute lib value =
    (u : Url) × (lib.parse_url value ≡ ok u)
    × (is_empty u.scheme ≡ false)
    × (is_empty u.host ≡ false)

abbrev pub IsAccess : DevConfig → SmartcarConfig → Type 0
IsAccess d s =
    ((d.enabled ≡ true) × (mem d.scenario dev_scenarios ≡ true))
    ⊎ ((d.enabled ≡ false)
        × (is_empty s.client_id ≡ false)
        × (is_empty s.client_secret ≡ false)
        × (is_empty s.user_id ≡ false))

abbrev pub IsSmartcar : Library → SmartcarConfig → Type 0
IsSmartcar lib s =
    IsAbsolute lib s.iam_base_url
    × IsAbsolute lib s.vehicle_base_url
    × (is_empty s.signal_codes ≡ false)
    × (mem s.unit_system unit_systems ≡ true)
    × (pos 0 <ℤ s.timeout)
    × (pos 0 ≤ℤ s.max_retries)

abbrev pub IsServer : Library → Config → Type 0
IsServer lib c =
    (is_empty c.addr ≡ false)
    × (lib.split_host_port c.addr ≡ none)
    × (pos 0 <ℤ c.read_header_timeout)
    × (pos 0 <ℤ c.read_timeout)
    × (pos 0 <ℤ c.write_timeout)
    × (pos 0 <ℤ c.idle_timeout)
    × (pos 0 <ℤ c.shutdown_timeout)

abbrev pub IsLogging : LoggingConfig → Type 0
IsLogging l =
    (mem l.level log_levels ≡ true)
    × (is_empty l.file ≡ false)
    × (pos 0 <ℤ l.max_size_mb)
    × (pos 0 ≤ℤ l.max_backups)
    × (pos 0 ≤ℤ l.max_age_days)

abbrev pub IsPostgres : PostgresConfig → Type 0
IsPostgres p =
    (is_empty (trim_space p.host) ≡ false)
    × (pos 0 <ℤ p.port)
    × (p.port ≤ℤ pos 65_535)
    × (is_empty (trim_space p.user) ≡ false)
    × (is_empty p.password ≡ false)
    × (is_empty (trim_space p.database) ≡ false)
    × (mem p.ssl_mode ssl_modes ≡ true)

abbrev pub IsStorage : StorageConfig → Type 0
IsStorage s =
    ((s.driver ≡ str "sqlite") × (is_empty (trim_space s.sqlite.path) ≡ false))
    ⊎ ((s.driver ≡ str "postgres") × IsPostgres s.postgres)

abbrev pub IsOtel : OtelConfig → Type 0
IsOtel o =
    (is_empty o.service_name ≡ false)
    × (is_empty o.service_version ≡ false)
    × (pos 0 <ℤ o.timeout)
    × (is_float_negative o.sample_ratio ≡ false)
    × (is_float_above_one o.sample_ratio ≡ false)
    × (is_empty o.client_cert_file ≡ is_empty o.client_key_file)

abbrev pub IsValid : Library → Config → Type 0
IsValid lib c =
    (pos 0 <ℤ c.auth.session_ttl)
    × IsAccess c.dev c.smartcar
    × IsSmartcar lib c.smartcar
    × IsServer lib c
    × IsLogging c.logging
    × IsStorage c.storage
    × IsOtel c.otel

url_or : Url → Result Url → Url
url_or u (ok v) = v
url_or u (err e) = u

url_error-none :
    (describe : GoError → GoError) (r : Result Url)
    → (url_error describe (absolute_only r) ≡ none)
      ↔ ((u : Url) × (r ≡ ok u) × (is_empty u.scheme ≡ false) × (is_empty u.host ≡ false))
unfolding url_error absolute_only url_or
url_error-none describe (err e) = (λ h. absurd (cc h), λ h. absurd (cc (h.1)))
url_error-none describe (ok u) = (
  λ h. (u, refl, ground arith, ground arith),
  λ (v, e, scheme, host).
      let same : u ≡ v = ap (url_or u) e in
      let full : is_empty u.scheme ≡ false = ap (λ w. is_empty w.scheme) same ∙ scheme in
      let at_host : is_empty u.host ≡ false = ap (λ w. is_empty w.host) same ∙ host in ground arith,
)

check_url-none :
    (lib : Library) (value : Str) (describe : GoError → GoError)
    → (check_url lib value describe ≡ none) ↔ IsAbsolute lib value
unfolding check_url parse_url
check_url-none lib value describe = url_error-none describe (lib.parse_url value)

reject_if-none : (b : Bool) (e : GoError) → (reject_if b e ≡ none) ↔ (b ≡ false)
reject_if-none true e = ground arith
reject_if-none false e = ground arith

not_positive_rejected :
    (x : ℤ) (e : GoError) → (reject_if (is_not_positive x) e ≡ none) ↔ (pos 0 <ℤ x)
not_positive_rejected x e = ground arith

first_error-seven :
    (a b c d e f g : Option GoError)
    → (first_error (a ∷ b ∷ c ∷ d ∷ e ∷ f ∷ g ∷ []) ≡ none)
      ↔ ((a ≡ none) × (b ≡ none) × (c ≡ none) × (d ≡ none) × (e ≡ none) × (f ≡ none) × (g ≡ none))
first_error-seven a b c d e f g = ground arith

module _ (lib : Library) where
  validate_access-none :
      (d : DevConfig) (s : SmartcarConfig) → (validate_access lib d s ≡ none) ↔ IsAccess d s
  unfolding validate_access validate_dev_scenario
  validate_access-none d s = ground arith

  validate_smartcar-none :
      (s : SmartcarConfig) → (validate_smartcar lib s ≡ none) ↔ IsSmartcar lib s
  unfolding validate_smartcar
  validate_smartcar-none s =
      let iam = check_url-none lib s.iam_base_url (wrapped "validate smartcar iam base url") in
      let vehicle =
        check_url-none lib s.vehicle_base_url (wrapped "validate smartcar vehicle base url") in
      (
        λ h. (
          iam.0 (ground arith),
          vehicle.0 (ground arith),
          ground arith,
          ground arith,
          ground arith,
          ground arith,
        ),
        λ (i, v, codes, units, timeout, retries).
            let one = iam.1 i in let two = vehicle.1 v in ground arith,
      )

  validate_server-none : (c : Config) → (validate_server lib c ≡ none) ↔ IsServer lib c
  unfolding validate_server
  validate_server-none c = ground arith

  validate_logging-none : (l : LoggingConfig) → (validate_logging lib l ≡ none) ↔ IsLogging l
  unfolding validate_logging
  validate_logging-none l = ground arith

  validate_postgres-none : (p : PostgresConfig) → (validate_postgres lib p ≡ none) ↔ IsPostgres p
  unfolding validate_postgres validate_postgres_ssl_mode
  validate_postgres-none p = ground arith

  validate_storage-none : (s : StorageConfig) → (validate_storage lib s ≡ none) ↔ IsStorage s
  unfolding validate_storage
  validate_storage-none s = ground (
    arith,
    str_eq_iff s.driver (str "sqlite"),
    str_eq_iff s.driver (str "postgres"),
    validate_postgres-none s.postgres,
    reject_if-none (is_empty (trim_space s.sqlite.path)) (new_error "sqlite path is required"),
  )

  validate_otel-none : (o : OtelConfig) → (validate_otel lib o ≡ none) ↔ IsOtel o
  unfolding validate_otel
  validate_otel-none o = ground arith

  -- Validate accepts a configuration exactly when each of its parts is as the program needs it.
  pub validate-none : (c : Config) → (validate lib c ≡ none) ↔ IsValid lib c
  unfolding validate
  validate-none c =
      let access = validate_access-none c.dev c.smartcar in
      let smartcar = validate_smartcar-none c.smartcar in
      let server = validate_server-none c in
      let logging = validate_logging-none c.logging in
      let storage = validate_storage-none c.storage in
      let otel = validate_otel-none c.otel in
      let ttl =
        not_positive_rejected c.auth.session_ttl
          (new_error "auth session ttl must be greater than zero") in
      let all =
        first_error-seven
          (reject_if (is_not_positive c.auth.session_ttl)
            (new_error "auth session ttl must be greater than zero"))
          (validate_access lib c.dev c.smartcar) (validate_smartcar lib c.smartcar)
          (validate_server lib c) (validate_logging lib c.logging) (validate_storage lib c.storage)
          (validate_otel lib c.otel) in
      (
        λ h.
            let (t, a, s, v, l, d, o) = all.0 h in
            (ttl.0 t, access.0 a, smartcar.0 s, server.0 v, logging.0 l, storage.0 d, otel.0 o),
        λ (t, a, s, v, l, d, o).
            all.1
              (ttl.1 t, access.1 a, smartcar.1 s, server.1 v, logging.1 l, storage.1 d, otel.1 o),
      )
