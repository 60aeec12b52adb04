-- ===== src/Config/Redact.antt =====
-- Redacted and RedactedJSON of internal/config/config.go.
use toyotaview.Common.{Str, Result, ok, err, wrapped, is_empty, ◌≡◌, refl, ap}
use toyotaview.Config.Types.{Config, SmartcarConfig, StorageConfig, PostgresConfig}
use toyotaview.Config.Values.{redact_value}
use toyotaview.Config.Values.Laws.{IsAlike, redact_value-alike, redact_value-hidden}

unfoldable pub redacted : Config → Config
redacted c =
    let smartcar : SmartcarConfig = c.smartcar in
    let storage : StorageConfig = c.storage in
    let postgres : PostgresConfig = storage.postgres in
    record c {
      smartcar = record smartcar {
        client_id = redact_value smartcar.client_id 4;
        client_secret = redact_value smartcar.client_secret 0;
        user_id = redact_value smartcar.user_id 6;
      };
      storage = record storage {
        postgres = record postgres { password = redact_value postgres.password 0 };
      };
    }

-- RedactedJSON, with json.MarshalIndent at a configuration.
unfoldable pub redacted_json : (Config → Result Str) → Config → Result Str
unfolding redacted
redacted_json marshal_indent c = elim (marshal_indent (redacted c)) [
  | err e ↦ err (wrapped "marshal redacted config" e)
  | ok payload ↦ ok payload
]

pub redacted_json_same :
    (marshal_indent : Config → Result Str) (c d : Config)
    → redacted c ≡ redacted d
    → redacted_json marshal_indent c ≡ redacted_json marshal_indent d
unfolding redacted_json
redacted_json_same marshal_indent c d same =
    ap
      (λ shown. elim (marshal_indent shown) [
        | err e ↦ err (wrapped "marshal redacted config" e)
        | ok payload ↦ ok payload
      ])
      same

-- A configuration with other secrets.
unfoldable pub with_secrets : Str → Str → Str → Str → Config → Config
with_secrets client_id client_secret user_id password c =
    let smartcar : SmartcarConfig = c.smartcar in
    let storage : StorageConfig = c.storage in
    let postgres : PostgresConfig = storage.postgres in
    record c {
      smartcar = record smartcar {
        client_id = client_id;
        client_secret = client_secret;
        user_id = user_id;
      };
      storage = record storage { postgres = record postgres { password = password } };
    }

-- The redacted configuration does not depend on the client's secret and the password, beyond
-- whether they are empty, nor on the client's and the user's identifier beyond whether they are
-- empty, their lengths and their last four and six bytes.
pub redacted-with_secrets :
    (c : Config) (client_id client_secret user_id password : Str)
    → IsAlike 4 client_id c.smartcar.client_id
    → is_empty client_secret ≡ is_empty c.smartcar.client_secret
    → IsAlike 6 user_id c.smartcar.user_id
    → is_empty password ≡ is_empty c.storage.postgres.password
    → redacted (with_secrets client_id client_secret user_id password c) ≡ redacted c
unfolding redacted with_secrets
redacted-with_secrets c client_id client_secret user_id password i s u p =
    rw
      (
        redact_value-alike 4 client_id c.smartcar.client_id i,
        redact_value-hidden client_secret c.smartcar.client_secret s,
        redact_value-alike 6 user_id c.smartcar.user_id u,
        redact_value-hidden password c.storage.postgres.password p,
      )
      refl
