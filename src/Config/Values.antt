-- ===== src/Config/Values.antt =====
-- The functions of internal/config/config.go on single values: lists, the environment, the
-- normal forms and the redaction. The parsers of Go's library are parameters.
pub mod Laws
use toyotaview.Common.{
  ℕ, ◌-◌, leb, ◌==◌, ◌||◌, none, some, List, [], ◌∷◌, ◌++◌, Str, str, Map, lookup, length, drop,
  replicate, is_empty, formatted_with, Result, ok, err, if◌then◌else◌,
}
use toyotaview.Common.Text.{split, to_lower, trim_space}

-- The loop of parseCSV.
unfoldable pub keep_parts : List Str → List Str
keep_parts [] = []
keep_parts (part ∷ parts) =
    let rest = keep_parts parts in
    let trimmed = trim_space part in if is_empty trimmed then rest else trimmed ∷ rest

unfoldable pub parse_csv : Str → List Str
parse_csv value = if is_empty value then [] else keep_parts (split b',' value)

unfoldable pub env_or_default : Map Str → Str → Str → Str
env_or_default env key fallback = elim (lookup key env) [
  | some value ↦ trim_space value
  | none ↦ fallback
]

-- The shared shape of durationEnvOrDefault, boolEnvOrDefault and floatEnvOrDefault, for a parser of
-- the library.
unfoldable pub parsed_env_or_default {ℓ} :
    {A : Type ℓ} → (Str → Result A) → Map Str → Str → A → Result A
parsed_env_or_default parse env key fallback =
    let value = env_or_default env key [] in
    if is_empty value then ok fallback else elim (parse value) [
      | ok parsed ↦ ok parsed
      | err e ↦ err (formatted_with "parse %s: %w" (key ∷ []) e)
    ]

-- normalizeStorageDriver and normalizePostgresSSLMode.
unfoldable pub normalize : (Str → Str) → Str → Str
normalize lower_unicode value = to_lower lower_unicode (trim_space value)

unfoldable pub normalize_dev_scenario : (Str → Str) → Str → Str
unfolding normalize
normalize_dev_scenario lower_unicode value =
    let normal = normalize lower_unicode value in if is_empty normal then str "happy" else normal

-- `keepSuffix` is 0, 4 or 6.
unfoldable pub redact_value : Str → ℕ → Str
redact_value value keep_suffix =
    let hidden = length value - keep_suffix in
    if is_empty value
    then []
    else if keep_suffix == 0 || leb (length value) keep_suffix
    then str "****"
    else replicate hidden b'*' ++ drop hidden value
