-- ===== src/Obs/Setup/Working.antt =====
-- When New of internal/obs/otel.go succeeds, and what it makes then.
use toyotaview.Common.{true, false, none, Str, is_empty, Result, ok, err, ◌≡◌}
use toyotaview.Config.Types.{Config, OtelConfig}
use toyotaview.Config.Validate
use toyotaview.Obs.Setup.{ExporterOptions, Creation, Telemetry, service_resource}

-- The configured files hold certificates where they are configured, and OpenTelemetry does what it is
-- asked for.
pub record IsWorking {W Cert : Type 0} (lib : Telemetry W Cert) (cfg : OtelConfig) : Type 0 where
  pub reads :
      is_empty cfg.ca_file ≡ false
      → (w : W)
      → (pem : Str) × ((lib.read_file cfg.ca_file w).0 ≡ ok pem) × (lib.append_certs pem ≡ true)
  pub pairs :
      is_empty cfg.client_cert_file ≡ false
      → (w : W)
      → (c : Cert) × ((lib.load_key_pair cfg.client_cert_file cfg.client_key_file w).0 ≡ ok c)
  pub traces : (o : ExporterOptions Cert) (w : W) → (lib.new_trace_exporter o w).0 ≡ none
  pub meters : (o : ExporterOptions Cert) (w : W) → (lib.new_metric_exporter o w).0 ≡ none
  pub describes : (w : W) → (lib.new_resource (service_resource lib cfg) w).0 ≡ none
  pub creates : (c : Creation) (w : W) → (lib.create c.kind c.name w).0 ≡ none
  pub registers : (w : W) → (lib.register_callback w).0 ≡ none

abbrev pem_or : Str → Result Str → Str
pem_or fallback (ok pem) = pem
pem_or fallback (err e) = fallback

module _ {W Cert : Type 0} (lib : Telemetry W Cert) (cfg : OtelConfig)
    (works : IsWorking lib cfg) where
  abbrev Succeeds : {A : Type 0} → Result A × W → Type 0
  Succeeds {A} p = (a : A) × (p.0 ≡ ok a)
