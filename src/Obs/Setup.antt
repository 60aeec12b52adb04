-- ===== src/Obs/Setup.antt =====
-- The set-up of OpenTelemetry: New, tlsConfigFromConfig, Shutdown and the recording methods of
-- internal/obs/otel.go, and newMetrics of metrics.go.
pub mod Laws
pub mod Working
mod Tests
use toyotaview.Common.{
  ℕ, Bool, not, ◌||◌, ◌&&◌, Option, none, some, List, [], ◌∷◌, ◌++◌, Str, str, String, is_empty,
  GoError, new_error, wrapped, Result, ok, err, Duration, seconds, has_prefix, drop, if◌then◌else◌,
}
use toyotaview.Config.Types.{OtelConfig}
use toyotaview.Obs.Metrics.{
  Metrics, set_cached_vehicles, record_smartcar, record_refresh, record_token,
}

-- The fields of the `tls.Config` that are set: the pool of root certificates by its PEM text.
pub record TlsConfig (Cert : Type 0) : Type 0 where
  pub min_version : ℕ
  pub server_name : Str
  pub root_cas : Option Str
  pub certificate : Option Cert

-- The options of an exporter.
pub record ExporterOptions (Cert : Type 0) : Type 0 where
  pub endpoint : Str
  pub timeout : Duration
  pub insecure : Bool
  pub tls : Option (TlsConfig Cert)

pub record Resource : Type 0 where
  pub service_name : Str
  pub service_version : Str
  pub environment : Str

-- What the providers of traces and of metrics are made of. A float64 is its 64 bits.
pub record Pipeline (Cert : Type 0) : Type 0 where
  pub trace_options : ExporterOptions Cert
  pub metric_options : ExporterOptions Cert
  pub resource : Resource
  pub sample_ratio : ℕ
  pub interval : Duration

-- `Observer`; without a pipeline its tracer and its meter do nothing.
pub record Observer (Cert : Type 0) : Type 0 where
  pub pipeline : Option (Pipeline Cert)

pub data Kind : Type 0 where
  counter histogram gauge : Kind

-- A call that creates an instrument, and what its error is wrapped in.
pub record Creation : Type 0 where
  pub kind : Kind
  pub name : String
  pub failure : String

-- What the code asks of package os, crypto/tls, crypto/x509 and OpenTelemetry. `type_name` is what
-- %T prints, and `warn` the call of the logger, if there is one.
pub record Telemetry (W Cert : Type 0) : Type 0 where
  pub read_file : Str → W → Result Str × W
  pub append_certs : Str → Bool
  pub load_key_pair : Str → Str → W → Result Cert × W
  pub new_trace_exporter : ExporterOptions Cert → W → Option GoError × W
  pub new_metric_exporter : ExporterOptions Cert → W → Option GoError × W
  pub new_resource : Resource → W → Option GoError × W
  pub create : Kind → String → W → Option GoError × W
  pub register_callback : W → Option GoError × W
  pub shutdown_tracer : W → Option GoError × W
  pub shutdown_meter : W → Option GoError × W
  pub warn : List GoError → W → W
  pub type_name : GoError → Str

-- tls.VersionTLS12.
abbrev pub version_tls12 : ℕ
version_tls12 = 0x0303

-- The instruments of newMetrics, in order.
unfoldable pub creations : List Creation
creations =
    record {
      kind = counter;
      name = "sc4r_http_server_requests_total";
      failure = "create http requests counter";
    }
    ∷ record {
      kind = histogram;
      name = "sc4r_http_server_duration_ms";
      failure = "create http duration histogram";
    }
    ∷ record {
      kind = counter;
      name = "sc4r_http_server_errors_total";
      failure = "create http errors counter";
    }
    ∷ record {
      kind = counter;
      name = "sc4r_smartcar_requests_total";
      failure = "create smartcar requests counter";
    }
    ∷ record {
      kind = histogram;
      name = "sc4r_smartcar_request_duration_ms";
      failure = "create smartcar duration histogram";
    }
    ∷ record {
      kind = counter;
      name = "sc4r_smartcar_errors_total";
      failure = "create smartcar errors counter";
    }
    ∷ record { kind = counter; name = "sc4r_refresh_total"; failure = "create refresh counter" }
    ∷ record {
      kind = histogram;
      name = "sc4r_refresh_duration_ms";
      failure = "create refresh histogram";
    }
    ∷ record {
      kind = counter;
      name = "sc4r_token_requests_total";
      failure = "create token counter";
    }
    ∷ record {
      kind = gauge;
      name = "sc4r_cached_vehicles";
      failure = "create cached vehicles gauge";
    }
    ∷ []

-- The next call of a function that returns at the first error.
unfoldable pub and_then :
    {W : Type 0} → (W → Option GoError × W) → Option GoError × W → Option GoError × W
and_then next (none, w) = next w
and_then next (some e, w) = (some e, w)

unfoldable pub wrap_in : {W : Type 0} → String → Option GoError × W → Option GoError × W
wrap_in what (none, w) = (none, w)
wrap_in what (some e, w) = (some (wrapped what e), w)

module _ {W Cert : Type 0} (lib : Telemetry W Cert) where
  unfoldable pub after_pair :
      TlsConfig Cert → Result Cert × W → Result (Option (TlsConfig Cert)) × W
  after_pair t (err e, w) = (err (wrapped "load otel client certificate" e), w)
  after_pair t (ok cert, w) = (ok (some (record t { certificate = some cert })), w)

  unfoldable pub with_certificate :
      OtelConfig → TlsConfig Cert → W → Result (Option (TlsConfig Cert)) × W
  unfolding after_pair
  with_certificate cfg t w =
      if is_empty cfg.client_cert_file
      then (ok (some t), w)
      else after_pair t (lib.load_key_pair cfg.client_cert_file cfg.client_key_file w)

  unfoldable pub after_ca :
      OtelConfig → TlsConfig Cert → Result Str × W → Result (Option (TlsConfig Cert)) × W
  after_ca cfg t (err e, w) = (err (wrapped "read otel ca file" e), w)
  after_ca cfg t (ok pem, w) =
      if lib.append_certs pem
      then with_certificate cfg (record t { root_cas = some pem }) w
      else (err (new_error "append otel ca file: no certificates found"), w)

  unfoldable pub with_ca : OtelConfig → TlsConfig Cert → W → Result (Option (TlsConfig Cert)) × W
  with_ca cfg t w =
      if is_empty cfg.ca_file
      then with_certificate cfg t w
      else after_ca cfg t (lib.read_file cfg.ca_file w)

  unfoldable pub tls_config_from_config : OtelConfig → W → Result (Option (TlsConfig Cert)) × W
  tls_config_from_config cfg w =
      if cfg.insecure
      then (ok none, w)
      else if is_empty cfg.client_cert_file && not (is_empty cfg.client_key_file)
          || not (is_empty cfg.client_cert_file) && is_empty cfg.client_key_file
      then (err (new_error "otel client cert and key must both be configured"), w)
      else with_ca cfg
          (record {
            min_version = version_tls12;
            server_name = cfg.server_name;
            root_cas = none;
            certificate = none;
          })
          w

  -- The calls of newMetrics, each with its error wrapped.
  unfoldable pub create_all : List Creation → W → Option GoError × W
  create_all [] w = wrap_in "register cached vehicles callback" (lib.register_callback w)
  create_all (c ∷ cs) w = and_then (create_all cs) (wrap_in c.failure (lib.create c.kind c.name w))

  unfoldable pub new_metrics : W → Option GoError × W
  unfolding create_all creations
  new_metrics w = create_all creations w

  -- The options of both exporters.
  unfoldable pub exporter_options : OtelConfig → Option (TlsConfig Cert) → ExporterOptions Cert
  exporter_options cfg tls = record {
    endpoint = cfg.endpoint;
    timeout = cfg.timeout;
    insecure = cfg.insecure;
    tls = if cfg.insecure then none else tls;
  }

  unfoldable pub observer_or : Observer Cert → Option GoError × W → Result (Observer Cert) × W
  observer_or o (none, w) = (ok o, w)
  observer_or o (some e, w) = (err e, w)

  unfoldable pub service_resource : OtelConfig → Resource
  service_resource cfg = record {
    service_name = cfg.service_name;
    service_version = cfg.service_version;
    environment = str "local";
  }

  -- The observer that exports.
  unfoldable pub exporting : OtelConfig → ExporterOptions Cert → Observer Cert
  unfolding service_resource
  exporting cfg options = record {
    pipeline = some (record {
      trace_options = options;
      metric_options = options;
      resource = service_resource cfg;
      sample_ratio = cfg.sample_ratio;
      interval = seconds 15;
    });
  }

  -- The exporters, the resource and the metrics, in the order in which New makes them.
  unfoldable pub start_exporting : OtelConfig → ExporterOptions Cert → W → Option GoError × W
  unfolding service_resource new_metrics
  start_exporting cfg options w = and_then new_metrics (
      and_then (λ u. wrap_in "create otel resource" (lib.new_resource (service_resource cfg) u))
        (and_then (λ u. wrap_in "create metric exporter" (lib.new_metric_exporter options u))
          (wrap_in "create trace exporter" (lib.new_trace_exporter options w))))

  -- New, once the TLS configuration is made.
  unfoldable pub after_tls :
      OtelConfig → Result (Option (TlsConfig Cert)) × W → Result (Observer Cert) × W
  unfolding exporter_options observer_or exporting start_exporting
  after_tls cfg (err e, w) = (err e, w)
  after_tls cfg (ok tls, w) =
      let options : ExporterOptions Cert = exporter_options cfg tls in
      observer_or (exporting cfg options) (start_exporting cfg options w)

  -- New.
  unfoldable pub new_observer : OtelConfig → W → Result (Observer Cert) × W
  unfolding after_tls tls_config_from_config observer_or new_metrics
  new_observer cfg w =
      if not cfg.enabled
      then observer_or (record { pipeline = none }) (new_metrics w)
      else after_tls cfg (tls_config_from_config cfg w)

  unfoldable pub with_error : Option GoError → List GoError → List GoError
  with_error none errs = errs
  with_error (some e) errs = errs ++ e ∷ []

  unfoldable pub warn_joined : List GoError × W → List GoError × W
  warn_joined ([], w) = ([], w)
  warn_joined (e ∷ errs, w) = (e ∷ errs, lib.warn (e ∷ errs) w)

  unfoldable pub shutdown_pipeline : Option (Pipeline Cert) → W → List GoError × W
  unfolding with_error warn_joined
  shutdown_pipeline none w = ([], w)
  shutdown_pipeline (some p) w =
      let (traced, w1) = lib.shutdown_tracer w in
      let (metered, w2) = lib.shutdown_meter w1 in
      warn_joined (with_error metered (with_error traced []), w2)

  -- Shutdown. The error of errors.Join is the list of its errors, empty for nil.
  unfoldable pub shutdown : Option (Observer Cert) → W → List GoError × W
  unfolding shutdown_pipeline
  shutdown none w = ([], w)
  shutdown (some o) w = shutdown_pipeline o.pipeline w

  unfoldable pub error_type : Option GoError → Str
  error_type none = []
  error_type (some e) =
      let name = lib.type_name e in if has_prefix name (str "*") then drop 1 name else name

  -- RecordSmartcar of an observer.
  unfoldable pub observe_smartcar :
      Option (Observer Cert) → Str → Str → Duration → Option GoError → Metrics → Metrics
  unfolding error_type
  observe_smartcar none operation status duration e m = m
  observe_smartcar (some o) operation status duration e m =
      record_smartcar operation status duration (error_type e) m

  -- SetCachedVehicles, RecordRefresh and RecordToken of an observer.
  unfoldable pub observe_cached : Option (Observer Cert) → ℕ → Metrics → Metrics
  observe_cached none count m = m
  observe_cached (some o) count m = set_cached_vehicles count m

  unfoldable pub observe_refresh : Option (Observer Cert) → Str → Str → Duration → Metrics → Metrics
  observe_refresh none scope result duration m = m
  observe_refresh (some o) scope result duration m = record_refresh scope result duration m

  unfoldable pub observe_token : Option (Observer Cert) → Str → Metrics → Metrics
  observe_token none result m = m
  observe_token (some o) result m = record_token result m
