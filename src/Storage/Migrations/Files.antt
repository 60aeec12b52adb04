-- ===== src/Storage/Migrations/Files.antt =====
-- postgresMigrationFiles of internal/storage/postgres.go over the files that the build embeds.
pub mod Laws
use toyotaview.Common.{
  ℕ, Bool, not, ◌&&◌, ◌||◌, ◌==◌, List, [], ◌∷◌, ◌++◌, any, Str, str, str_eq, is_empty,
  formatted_with, wrapped, Result, ok, err, if◌then◌else◌,
}
use toyotaview.Storage.Migrations.{Migration}

pub record Entry : Type 0 where
  pub name : Str
  pub is_dir : Bool

-- A dot in the last element of a path.
unfoldable pub is_dotted : ℕ → Str → Bool
is_dotted c s = c == b'.' && not (any (λ d. d == b'/') s)

-- filepath.Ext: from the last dot of the last element of a path on.
unfoldable pub ext : Str → Str
ext [] = []
ext (c ∷ s) =
    let rest = ext s in if not (is_empty rest) then rest else if is_dotted c s then c ∷ s else []

-- strings.TrimSuffix, the suffix first.
unfoldable pub trim_suffix : Str → Str → Str
trim_suffix suffix [] = []
trim_suffix suffix (c ∷ s) =
    let rest = trim_suffix suffix s in if str_eq (c ∷ s) suffix then [] else c ∷ rest

unfoldable pub is_skipped : Entry → Bool
unfolding ext
is_skipped e = e.is_dir || not (str_eq (ext e.name) (str ".sql"))

-- The file of an entry in front of those of the later entries.
unfoldable pub with_file : Str → Result Str → Result (List Migration) → Result (List Migration)
unfolding trim_suffix
with_file name (err e) rest = err (formatted_with "read postgres migration %s: %w" (name ∷ []) e)
with_file name (ok payload) (err e) = err e
with_file name (ok payload) (ok migrations) =
    ok (record { version = trim_suffix (str ".sql") name; sql = payload } ∷ migrations)

-- `read_file` is the method of the embedded file system, and the entries are those of its ReadDir.
module _ (read_file : Str → Result Str) where
  unfoldable pub files_from : List Entry → Result (List Migration)
  unfolding is_skipped with_file
  files_from [] = ok []
  files_from (e ∷ es) =
      let rest = files_from es in
      if is_skipped e
      then rest
      else with_file e.name (read_file (str "migrations/postgres/" ++ e.name)) rest

  unfoldable pub postgres_migration_files : Result (List Entry) → Result (List Migration)
  unfolding files_from
  postgres_migration_files (err e) = err (wrapped "read postgres migrations" e)
  postgres_migration_files (ok entries) = files_from entries
