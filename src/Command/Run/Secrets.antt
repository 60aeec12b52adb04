-- ===== src/Command/Run/Secrets.antt =====
-- What run of cmd/smartcar-4runner/main.go prints of a configuration.
use toyotaview.Common.{true, Str, Result, ok, err, is_empty, ◌≡◌, refl, sym, ◌∙◌}
use toyotaview.Config.Types.{Config}
use toyotaview.Config.Load.{loaded}
use toyotaview.Config.Values.Laws.{IsAlike}
use toyotaview.Config.Redact.{
  redacted_json, redacted_json_same, with_secrets, redacted-with_secrets,
}
use toyotaview.Command.Run.{System, Running, run_printing, print_config, run}

module _ {W : Type 0} (system : System W) where
  -- A run that prints the configuration.
  run_printed :
      (c : Config) (x : Running W)
      → c.print_config ≡ true
      → run system (loaded c) x ≡ print_config system c (redacted_json system.marshal_indent c) x
  unfolding run run_printing
  run_printed c x asked = rw asked refl

  print_config_same :
      (c d : Config) (p q : Result Str) (x : Running W)
      → p ≡ q
      → print_config system c p x ≡ print_config system d q x
  unfolding print_config
  print_config_same c d (err e) q x same = rw (sym same) refl
  print_config_same c d (ok payload) q x same = rw (sym same) refl

  -- Where the configuration asks to be printed, the run neither prints nor returns anything that
  -- depends on the client's secret and the password, beyond whether they are empty, nor on the
  -- client's and the user's identifier beyond whether they are empty, their lengths and their last
  -- four and six bytes.
  pub run-with_secrets :
      (c : Config) (client_id client_secret user_id password : Str) (x : Running W)
      → c.print_config ≡ true
      → IsAlike 4 client_id c.smartcar.client_id
      → is_empty client_secret ≡ is_empty c.smartcar.client_secret
      → IsAlike 6 user_id c.smartcar.user_id
      → is_empty password ≡ is_empty c.storage.postgres.password
      → run system (loaded (with_secrets client_id client_secret user_id password c)) x
        ≡ run system (loaded c) x
  unfolding with_secrets
  run-with_secrets c client_id client_secret user_id password x asked i s u p =
      let d : Config = with_secrets client_id client_secret user_id password c in
      let same : redacted_json system.marshal_indent d ≡ redacted_json system.marshal_indent c =
        redacted_json_same system.marshal_indent d c
          (redacted-with_secrets c client_id client_secret user_id password i s u p) in
      run_printed d x asked ∙ print_config_same d c _ _ x same ∙ sym (run_printed c x asked)
