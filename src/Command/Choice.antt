-- ===== src/Command/Choice.antt =====
-- shouldMigrateStorage, newSmartcarAPI and envMap of cmd/smartcar-4runner/main.go.
pub mod Laws
pub mod Env
use toyotaview.Common.{
  ℕ, Bool, true, ◌&&◌, Option, none, some, List, [], ◌∷◌, Str, str, str_eq, ◌==◌, Map, insert,
  Result, ok, err, if◌then◌else◌,
}
use toyotaview.Config.Types.{Config}
use toyotaview.Smartcar.Http.{Url}
use toyotaview.Smartcar.Client.{ClientConfig}
use toyotaview.Smartcar.Setup.{new_client}
use toyotaview.Dev.Backend.{Backend, new_backend}

unfoldable pub should_migrate_storage : Config → Bool
should_migrate_storage cfg =
    if str_eq cfg.storage.driver (str "sqlite")
    then true
    else str_eq cfg.storage.driver (str "postgres") && cfg.storage.postgres.migrate_on_start

-- What newSmartcarAPI returns.
pub data Chosen : Type 0 where
  mocked : Backend → Chosen
  live : ClientConfig → Chosen

unfoldable pub mocked_or : Result Backend → Result Chosen
mocked_or (ok a) = ok (mocked a)
mocked_or (err e) = err e

unfoldable pub live_or : Result ClientConfig → Result Chosen
live_or (ok c) = ok (live c)
live_or (err e) = err e

unfoldable pub new_smartcar_api : (Str → Str) → (Str → Result Url) → Str → Config → Result Chosen
unfolding mocked_or live_or
new_smartcar_api lower_unicode parse_url version cfg =
    if cfg.dev.enabled
    then mocked_or (
        new_backend lower_unicode (record {
          scenario = cfg.dev.scenario;
          signal_codes = cfg.smartcar.signal_codes;
          unit_system = cfg.smartcar.unit_system;
        }))
    else live_or (new_client parse_url cfg.smartcar version)

unfoldable pub add_front : ℕ → Option (Str × Str) → Option (Str × Str)
add_front c none = none
add_front c (some (key, value)) = some (c ∷ key, value)

-- strings.Cut at a byte.
unfoldable pub cut : ℕ → Str → Option (Str × Str)
unfolding add_front
cut sep [] = none
cut sep (c ∷ s) = let rest = cut sep s in if c == sep then some ([], s) else add_front c rest

unfoldable pub add_item : Option (Str × Str) → Map Str → Map Str
add_item none env = env
add_item (some (key, value)) env = insert key value env

-- The loop of envMap.
unfoldable pub env_from : Map Str → List Str → Map Str
unfolding add_item cut
env_from env [] = env
env_from env (item ∷ values) = env_from (add_item (cut b'=' item) env) values

unfoldable pub env_map : List Str → Map Str
unfolding env_from
env_map values = env_from [] values
