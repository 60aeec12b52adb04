-- ===== src/Obs/Setup/Laws.antt =====
-- How the exporters are secured that New of internal/obs/otel.go makes.
use toyotaview.Common.{
  Bool, true, false, not, Option, none, some, Str, is_empty, GoError, Result, ok, err, Bool-cases,
  ◌≡◌, ◌⊎◌, refl, sym, ap, ◌∙◌, inl, inr, if◌then◌else◌,
}
use toyotaview.Config.Types.{OtelConfig}
use toyotaview.Obs.Setup.{
  TlsConfig, ExporterOptions, Pipeline, Observer, Telemetry, version_tls12, after_pair,
  with_certificate, after_ca, with_ca, tls_config_from_config, new_metrics, exporter_options,
  observer_or, exporting, after_tls, new_observer,
}

abbrev pub is_none {ℓ} : {A : Type ℓ} → Option A → Bool
is_none none = true
is_none (some a) = false

module _ {W Cert : Type 0} (lib : Telemetry W Cert) where
  -- A TLS configuration for this configuration of OpenTelemetry.
  abbrev pub IsTls : OtelConfig → TlsConfig Cert → Type 0
  IsTls cfg t =
      (t.min_version ≡ version_tls12)
      × (t.server_name ≡ cfg.server_name)
      × (is_none t.root_cas ≡ is_empty cfg.ca_file)
      × (is_none t.certificate ≡ is_empty cfg.client_cert_file)

  -- The transport of an exporter: plain only where that is configured.
  abbrev pub IsSecured : OtelConfig → ExporterOptions Cert → Type 0
  IsSecured cfg o =
      (o.endpoint ≡ cfg.endpoint)
      × (o.insecure ≡ cfg.insecure)
      × ((cfg.insecure ≡ true)
          ⊎ ((cfg.insecure ≡ false) × ((t : TlsConfig Cert) × (o.tls ≡ some t) × IsTls cfg t)))

  -- What New makes: nothing that exports, or two secured exporters.
  abbrev pub IsMade : OtelConfig → Option (Pipeline Cert) → Type 0
  IsMade cfg none = cfg.enabled ≡ false
  IsMade cfg (some p) =
      (cfg.enabled ≡ true)
      × IsSecured cfg p.trace_options
      × IsSecured cfg p.metric_options
      × (p.sample_ratio ≡ cfg.sample_ratio)

  abbrev TlsFor : OtelConfig → Result (Option (TlsConfig Cert)) × W → Type 0
  TlsFor cfg (ok none, w) = cfg.insecure ≡ true
  TlsFor cfg (ok (some t), w) = (cfg.insecure ≡ false) × IsTls cfg t
  TlsFor cfg (err e, w) = Unit {0}

  -- The TLS configuration before the certificate of the client is loaded.
  abbrev IsBegun : OtelConfig → TlsConfig Cert → Type 0
  IsBegun cfg t =
      (cfg.insecure ≡ false)
      × (t.min_version ≡ version_tls12)
      × (t.server_name ≡ cfg.server_name)
      × (is_none t.root_cas ≡ is_empty cfg.ca_file)
      × (is_none t.certificate ≡ true)

  TlsFor-after_pair :
      (cfg : OtelConfig) (t : TlsConfig Cert) (p : Result Cert × W)
      → IsBegun cfg t
      → is_empty cfg.client_cert_file ≡ false
      → TlsFor cfg (after_pair lib t p)
  unfolding after_pair
  TlsFor-after_pair cfg t (err e, w) begun shown = tt
  TlsFor-after_pair cfg t (ok c, w) begun shown = (begun.0, (begun.1, begun.2, begun.3, sym shown))

  TlsFor-with_certificate :
      (cfg : OtelConfig) (t : TlsConfig Cert) (w : W)
      → IsBegun cfg t
      → TlsFor cfg (with_certificate lib cfg t w)
  unfolding with_certificate
  TlsFor-with_certificate cfg t w begun = elim (Bool-cases (is_empty cfg.client_cert_file)) [
    | inl absent ↦ rw absent (begun.0, (begun.1, begun.2, begun.3, begun.4 ∙ sym absent))
    | inr shown ↦ rw shown (TlsFor-after_pair cfg t _ begun shown)
  ]

  TlsFor-after_ca :
      (cfg : OtelConfig) (t : TlsConfig Cert) (p : Result Str × W)
      → (cfg.insecure ≡ false)
        × (t.min_version ≡ version_tls12)
        × (t.server_name ≡ cfg.server_name)
        × (is_none t.certificate ≡ true)
      → is_empty cfg.ca_file ≡ false
      → TlsFor cfg (after_ca lib cfg t p)
  unfolding after_ca
  TlsFor-after_ca cfg t (err e, w) begun shown = tt
  TlsFor-after_ca cfg t (ok pem, w) begun shown = elim (Bool-cases (lib.append_certs pem)) [
    | inl known ↦ rw known (
        TlsFor-with_certificate cfg (record t { root_cas = some pem }) w
          (begun.0, begun.1, begun.2, sym shown, begun.3))
    | inr unknown ↦ rw unknown tt
  ]

  TlsFor-with_ca :
      (cfg : OtelConfig) (t : TlsConfig Cert) (w : W)
      → (cfg.insecure ≡ false)
        × (t.min_version ≡ version_tls12)
        × (t.server_name ≡ cfg.server_name)
        × (is_none t.root_cas ≡ true)
        × (is_none t.certificate ≡ true)
      → TlsFor cfg (with_ca lib cfg t w)
  unfolding with_ca
  TlsFor-with_ca cfg t w begun = elim (Bool-cases (is_empty cfg.ca_file)) [
    | inl absent ↦
        rw absent (
          TlsFor-with_certificate cfg t w
            (begun.0, begun.1, begun.2, begun.3 ∙ sym absent, begun.4))
    | inr shown ↦ rw shown (
        TlsFor-after_ca cfg t (lib.read_file cfg.ca_file w) (begun.0, begun.1, begun.2, begun.4)
          shown)
  ]

  first_tls : OtelConfig → TlsConfig Cert
  first_tls cfg = record {
    min_version = version_tls12;
    server_name = cfg.server_name;
    root_cas = none;
    certificate = none;
  }

  TlsFor-matched :
      (cfg : OtelConfig) (w : W) (e : GoError) (mismatch : Bool)
      → cfg.insecure ≡ false
      → TlsFor cfg (if mismatch then (err e, w) else with_ca lib cfg (first_tls cfg) w)
  unfolding first_tls
  TlsFor-matched cfg w e true secured = tt
  TlsFor-matched cfg w e false secured =
      TlsFor-with_ca cfg (first_tls cfg) w (secured, refl, refl, refl, refl)

  TlsFor-by :
      (cfg : OtelConfig) (w : W) (rest : Result (Option (TlsConfig Cert)) × W) (plain : Bool)
      → cfg.insecure ≡ plain
      → (cfg.insecure ≡ false → TlsFor cfg rest)
      → TlsFor cfg (if plain then (ok none, w) else rest)
  TlsFor-by cfg w rest true h made = h
  TlsFor-by cfg w rest false h made = made h

  TlsFor-tls_config : (cfg : OtelConfig) (w : W) → TlsFor cfg (tls_config_from_config lib cfg w)
  unfolding tls_config_from_config first_tls
  TlsFor-tls_config cfg w = TlsFor-by cfg w _ cfg.insecure refl (TlsFor-matched cfg w _ _)

  abbrev pub MadeBy : OtelConfig → Result (Observer Cert) × W → Type 0
  MadeBy cfg (ok o, w) = IsMade cfg o.pipeline
  MadeBy cfg (err e, w) = Unit {0}

  MadeBy-observer_or :
      (cfg : OtelConfig) (o : Observer Cert) (p : Option GoError × W)
      → IsMade cfg o.pipeline
      → MadeBy cfg (observer_or lib o p)
  unfolding observer_or
  MadeBy-observer_or cfg o (none, w) made = made
  MadeBy-observer_or cfg o (some e, w) made = tt

  IsSecured-exporter_options :
      (cfg : OtelConfig) (tls : Option (TlsConfig Cert)) (w : W)
      → TlsFor cfg (ok tls, w)
      → IsSecured cfg (exporter_options lib cfg tls)
  unfolding exporter_options
  IsSecured-exporter_options cfg none w plain = (refl, refl, inl plain)
  IsSecured-exporter_options cfg (some t) w made =
      (refl, refl, inr (made.0, (t, ap (λ b. if b then none else some t) (made.0), made.1)))

  MadeBy-after_tls :
      (cfg : OtelConfig) (p : Result (Option (TlsConfig Cert)) × W)
      → cfg.enabled ≡ true
      → TlsFor cfg p
      → MadeBy cfg (after_tls lib cfg p)
  unfolding after_tls exporting
  MadeBy-after_tls cfg (err e, w) on made = tt
  MadeBy-after_tls cfg (ok tls, w) on made =
      let secured = IsSecured-exporter_options cfg tls w made in
      MadeBy-observer_or cfg (exporting lib cfg (exporter_options lib cfg tls)) _
        (on, secured, secured, refl)

  MadeBy-by :
      (cfg : OtelConfig) (w : W) (on : Bool)
      → cfg.enabled ≡ on
      → MadeBy cfg (
          if not on
          then observer_or lib (record { pipeline = none }) (new_metrics lib w)
          else after_tls lib cfg (tls_config_from_config lib cfg w))
  MadeBy-by cfg w false h = MadeBy-observer_or cfg _ _ h
  MadeBy-by cfg w true h = MadeBy-after_tls cfg _ h (TlsFor-tls_config cfg w)

  pub MadeBy-new_observer : (cfg : OtelConfig) (w : W) → MadeBy cfg (new_observer lib cfg w)
  unfolding new_observer
  MadeBy-new_observer cfg w = MadeBy-by cfg w cfg.enabled refl
