-- ===== src/Command/Choice/Laws.antt =====
-- What newSmartcarAPI makes of a configuration that Load returns.
use toyotaview.Common.{
  true, false, none, List, Str, str, str_eq_iff, Map, mem, ok, ◌≡◌, refl, ◌⊎◌, inl, inr, arith, pos,
  ◌<ℤ◌,
}
use toyotaview.Common.Text.{
  trim_space, to_lower, skip_space, start_width, end_width, is_ascii, lower_byte,
}
use toyotaview.Config.Types.{Config, SmartcarConfig}
use toyotaview.Config.Validate.{Library, dev_scenarios}
use toyotaview.Config.Validate.Laws.{IsAbsolute, IsSmartcar}
use toyotaview.Config.Defaults.{Parsers}
use toyotaview.Config.FlagSet.{Definition}
use toyotaview.Config.Load.{Parsed, loaded, load}
use toyotaview.Config.Load.Laws.{IsReady, load-IsReady}
use toyotaview.Smartcar.Client.{ClientConfig}
use toyotaview.Smartcar.Setup.{new_client, after_iam_url}
use toyotaview.Dev.Backend.{
  BackendConfig, Backend, normalize_scenario, validate_scenario, new_backend,
}
use toyotaview.Command.Choice.{Chosen, mocked, live, mocked_or, live_or, new_smartcar_api}
use toyotaview.Command.Run.{new_auth_service}

-- A scenario that Validate accepts is one of the four.
dev_scenarios_four :
    (s : Str)
    → mem s dev_scenarios ≡ true
    → (s ≡ str "happy") ⊎ (s ≡ str "partial") ⊎ (s ≡ str "empty") ⊎ (s ≡ str "failure")
unfolding mem
dev_scenarios_four s h = ground (
  arith,
  h,
  str_eq_iff (str "happy") s,
  str_eq_iff (str "partial") s,
  str_eq_iff (str "empty") s,
  str_eq_iff (str "failure") s,
)

normalize_scenario_four :
    (lower_unicode : Str → Str) (s : Str)
    → mem s dev_scenarios ≡ true
    → normalize_scenario lower_unicode s ≡ s
unfolding normalize_scenario trim_space skip_space start_width end_width to_lower is_ascii
    lower_byte
normalize_scenario_four lower_unicode s h = elim (dev_scenarios_four s h) [
  | inl happy ↦ rw happy refl
  | inr (inl partial) ↦ rw partial refl
  | inr (inr (inl empty)) ↦ rw empty refl
  | inr (inr (inr failure)) ↦ rw failure refl
]

new_backend_valid :
    (lower_unicode : Str → Str) (cfg : BackendConfig)
    → mem cfg.scenario dev_scenarios ≡ true
    → (a : Backend) × (new_backend lower_unicode cfg ≡ ok a) × (a.scenario ≡ cfg.scenario)
unfolding new_backend validate_scenario
new_backend_valid lower_unicode cfg h =
    let same : normalize_scenario lower_unicode cfg.scenario ≡ cfg.scenario =
      normalize_scenario_four lower_unicode cfg.scenario h in
    rw (new_backend, same, validate_scenario, h) (_, refl, same)

new_client_valid :
    (lib : Library) (cfg : SmartcarConfig) (version : Str)
    → IsAbsolute lib cfg.iam_base_url
    → IsAbsolute lib cfg.vehicle_base_url
    → (k : ClientConfig) × (new_client lib.parse_url cfg version ≡ ok k)
      × (k.max_retries ≡ cfg.max_retries)
unfolding new_client after_iam_url
new_client_valid lib cfg version (iam, read, scheme, host)
      (vehicle, found, other_scheme, other_host) =
    rw (new_client, read, found) (_, refl, refl)

-- The API that a configuration asks for: the mocked backend in its scenario, or the client with its
-- number of retries.
abbrev pub IsChosen : Config → Chosen → Type 0
IsChosen c (mocked a) = (c.dev.enabled ≡ true) × (a.scenario ≡ c.dev.scenario)
IsChosen c (live k) = (c.dev.enabled ≡ false) × (k.max_retries ≡ c.smartcar.max_retries)

module _ (parsers : Parsers) (lib : Library) (parse_flags : List Definition → List Str → Parsed)
    (version : Str) where
  Accepted-IsReady :
      (c : Config)
      → IsReady lib c
      → (new_auth_service c.auth.session_ttl ≡ none)
        × (api : Chosen) × (new_smartcar_api parsers.lower_unicode lib.parse_url version c ≡ ok api)
        × IsChosen c api
  unfolding new_auth_service new_smartcar_api mocked_or live_or
  Accepted-IsReady c ready =
      let ttl : pos 0 <ℤ c.auth.session_ttl = ready.is_valid.0 in
      let accepted : new_auth_service c.auth.session_ttl ≡ none = ground (arith, ttl) in
      elim (ready.is_valid.1) [
        | inl (enabled, listed) ↦
            let made =
              new_backend_valid parsers.lower_unicode
                (record {
                  scenario = c.dev.scenario;
                  signal_codes = c.smartcar.signal_codes;
                  unit_system = c.smartcar.unit_system;
                })
                listed in
            (accepted, mocked made.0, simp (enabled, made.1), (enabled, made.2))
        | inr credentials ↦
            let asked : IsSmartcar lib c.smartcar = ready.is_valid.2 in
            let made = new_client_valid lib c.smartcar version asked.0 asked.1 in
            (accepted, live made.0, simp (credentials.0, made.1), (credentials.0, made.2))
      ]

  -- A configuration that Load returns is accepted by NewService and by newSmartcarAPI, which makes the
  -- mocked backend in the configured scenario where development mode is enabled, and the client with
  -- the configured number of retries otherwise.
  pub new_smartcar_api-load :
      (args : List Str) (env : Map Str) (c : Config)
      → load parsers lib parse_flags args env ≡ loaded c
      → (new_auth_service c.auth.session_ttl ≡ none)
        × (api : Chosen) × (new_smartcar_api parsers.lower_unicode lib.parse_url version c ≡ ok api)
        × IsChosen c api
  new_smartcar_api-load args env c e =
      Accepted-IsReady c (load-IsReady parsers lib parse_flags args env c e)
