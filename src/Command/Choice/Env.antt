-- ===== src/Command/Choice/Env.antt =====
-- What envMap of cmd/smartcar-4runner/main.go holds: of the items of the environment, the last one of
-- each name.
use toyotaview.Common.{
  false, Option, none, some, List, [], ◌∷◌, ◌++◌, ℕ, Str, str_eq, Map, lookup, lookup-insert, any,
  ◌==◌, if◌then◌else◌, Bool-cases, ◌≡◌, refl, sym, ap, ◌∙◌, inl, inr, arith,
}
use toyotaview.Common.Interleaving.{or_else, or_else_assoc, last_write}
use toyotaview.Command.Choice.{add_front, cut, add_item, env_from, env_map}

-- What follows a prefix, where the text has it.
unfoldable pub strip : Str → Str → Option Str
strip [] s = some s
strip (p ∷ ps) [] = none
strip (p ∷ ps) (c ∷ s) = if c == p then strip ps s else none

-- The value of an item `key=value`.
abbrev pub value_of : Str → Str → Option Str
value_of key item = strip (key ++ b'=' ∷ []) item

-- The value of a cut item that is of the key.
matched : Str → Option (Str × Str) → Option Str
matched key none = none
matched key (some (k, v)) = if str_eq k key then some v else none

matched-add_front_nil : (c : ℕ) (r : Option (Str × Str)) → matched [] (add_front c r) ≡ none
unfolding matched add_front str_eq
matched-add_front_nil c none = refl
matched-add_front_nil c (some (k, v)) = refl

matched-add_front :
    (k c : ℕ) (key : Str) (r : Option (Str × Str))
    → matched (k ∷ key) (add_front c r) ≡ (if c == k then matched key r else none)
unfolding matched add_front str_eq
matched-add_front k c key none = ground arith
matched-add_front k c key (some (j, v)) = ground arith

matched-cut :
    (key item : Str)
    → any (λ c. c == b'=') key ≡ false
    → matched key (cut b'=' item) ≡ value_of key item
unfolding matched cut strip str_eq
matched-cut [] [] free = refl
matched-cut (k ∷ key) [] free = refl
matched-cut [] (c ∷ item) free = elim (Bool-cases (c == b'=')) [
  | inl same ↦ rw same refl
  | inr other ↦ rw other (matched-add_front_nil c (cut b'=' item))
]
matched-cut (k ∷ key) (c ∷ item) free =
    let rest : any (λ d. d == b'=') key ≡ false = ground arith in
    elim (Bool-cases (c == b'=')) [
      | inl same ↦ rw same (ground arith)
      | inr other ↦ rw other (
          matched-add_front k c key (cut b'=' item)
          ∙ ap (λ r. if c == k then r else none) (matched-cut key item rest))
    ]

lookup-add_item :
    (key : Str) (r : Option (Str × Str)) (env : Map Str)
    → lookup key (add_item r env) ≡ or_else (matched key r) (lookup key env)
unfolding add_item matched or_else
lookup-add_item key none env = refl
lookup-add_item key (some (k, v)) env = elim (Bool-cases (str_eq k key)) [
  | inl same ↦ rw (lookup-insert k key v env, same) refl
  | inr other ↦ rw (lookup-insert k key v env, other) refl
]

lookup-env_from :
    (key : Str) (values : List Str) (env : Map Str)
    → any (λ c. c == b'=') key ≡ false
    → lookup key (env_from env values) ≡ or_else (last_write (value_of key) values) (lookup key env)
unfolding env_from last_write or_else
lookup-env_from key [] env free = refl
lookup-env_from key (item ∷ values) env free =
    lookup-env_from key values (add_item (cut b'=' item) env) free
    ∙ ap (or_else (last_write (value_of key) values)) (
        lookup-add_item key (cut b'=' item) env
        ∙ ap (λ o. or_else o (lookup key env)) (matched-cut key item free))
    ∙ sym (or_else_assoc (last_write (value_of key) values) (value_of key item) (lookup key env))

or_else-none_right : (o : Option Str) → or_else o none ≡ o
unfolding or_else
or_else-none_right none = refl
or_else-none_right (some v) = refl

-- The environment that Load gets has, for a name without `=`, exactly what follows `name=` in the last
-- item that begins so, and nothing where no item does.
pub lookup-env_map :
    (key : Str) (values : List Str)
    → any (λ c. c == b'=') key ≡ false
    → lookup key (env_map values) ≡ last_write (value_of key) values
unfolding env_map lookup
lookup-env_map key values free =
    lookup-env_from key values [] free ∙ or_else-none_right (last_write (value_of key) values)
