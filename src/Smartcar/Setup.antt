-- ===== src/Smartcar/Setup.antt =====
-- NewClient of internal/smartcar/client.go: the client's fields from the configuration.
use toyotaview.Common.{◌++◌, Str, str, is_empty, Result, ok, err, wrapped, if◌then◌else◌}
use toyotaview.Config.Types.{SmartcarConfig}
use toyotaview.Smartcar.Http.{Url}
use toyotaview.Smartcar.Client.{ClientConfig}

-- fmt.Sprintf("smartcar-4runner/%s", version), or the name of a development build.
unfoldable pub user_agent_of : Str → Str
user_agent_of version =
    if is_empty version then str "smartcar-4runner/dev" else str "smartcar-4runner/" ++ version

module _ (parse_url : Str → Result Url) (cfg : SmartcarConfig) (version : Str) where
  unfoldable pub after_iam_url : Url → Result Url → Result ClientConfig
  unfolding user_agent_of
  after_iam_url iam (err e) = err (wrapped "parse vehicle base url" e)
  after_iam_url iam (ok vehicle) = ok (record {
    client_id = cfg.client_id;
    client_secret = cfg.client_secret;
    iam_base_url = iam;
    vehicle_base_url = vehicle;
    unit_system = cfg.unit_system;
    max_retries = cfg.max_retries;
    user_agent = user_agent_of version;
  })

  unfoldable pub new_client : Result ClientConfig
  unfolding after_iam_url
  new_client = elim (parse_url cfg.iam_base_url) [
    | err e ↦ err (wrapped "parse iam base url" e)
    | ok iam ↦ after_iam_url iam (parse_url cfg.vehicle_base_url)
  ]
