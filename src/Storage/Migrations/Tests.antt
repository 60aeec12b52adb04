-- ===== src/Storage/Migrations/Tests.antt =====
-- The migrations on small inputs, and their theorems there.
use toyotaview.Common.{
  new_error, Option, some, Bool-cases, GoError, Bool, ◌||◌, is_empty, str_eq_iff, inl, inr, none,
  List, [], ◌∷◌, Str, str, mem, Result, ok, err, All, ◌≡◌, refl, if◌then◌else◌,
}
use toyotaview.Common.{str_eq, sym, ap, ◌∙◌}
use toyotaview.Common.{false, map}
use toyotaview.Storage.Migrations.{
  Migration, Transactions, apply_all, migrate, after_lock, after_table, apply_missing, after_apply,
  after_record, next_migration, commit_or, after_commit,
}
use toyotaview.Storage.Migrations.Files.{postgres_migration_files}
use toyotaview.Storage.Migrations.Files.Laws.{
  file_name, sql_names, ends_in, IsFile, postgres_migration_files-IsRead,
}
use toyotaview.Storage.Migrations.Laws.{
  IsRecording, IsApart, AllRecorded, with_other, migrate_again,
}

-- The database is the list of the recorded versions. A transaction has them too, unless a statement
-- has failed: then it fails at every further one.
abbrev aborted : GoError
aborted = new_error "current transaction is aborted"

abbrev run_sql : Str → Option (List Str) → Option GoError × Option (List Str)
run_sql sql none = (some aborted, none)
run_sql sql (some t) = if str_eq sql [] then (some (new_error "syntax"), none) else (none, some t)

abbrev add_version : Str → Option (List Str) → Option GoError × Option (List Str)
add_version v none = (some aborted, none)
add_version v (some t) = (none, some (v ∷ t))

abbrev has_version : Str → Option (List Str) → Result Bool × Option (List Str)
has_version v none = (err aborted, none)
has_version v (some t) = (ok (mem v t), some t)

abbrev statement : Option (List Str) → Option GoError × Option (List Str)
statement none = (some aborted, none)
statement (some t) = (none, some t)

abbrev committed : Option (List Str) → List Str → Option GoError × List Str
committed none w = (some aborted, w)
committed (some t) w = (none, t)

abbrev demo_transactions : Transactions (List Str) (Option (List Str))
demo_transactions = record {
  begin = λ w. ok (some w);
  lock = statement;
  ensure_table = statement;
  is_recorded = has_version;
  apply = run_sql;
  record_version = add_version;
  commit = committed;
}

abbrev demo_versions : Option (List Str) → List Str
demo_versions none = []
demo_versions (some t) = t

abbrev answer_or : Bool → Result Bool → Bool
answer_or b (ok c) = c
answer_or b (err e) = b

abbrev state_or : Option (List Str) → Result (Option (List Str)) → Option (List Str)
state_or t (ok u) = u
state_or t (err e) = t

statement_keeps :
    (t : Option (List Str))
    → (statement t).0 ≡ none
    → demo_versions (statement t).1 ≡ demo_versions t
statement_keeps none h = refl
statement_keeps (some t) h = refl

has_version_told :
    (v : Str) (t u : Option (List Str)) (b : Bool)
    → has_version v t ≡ (ok b, u)
    → (b ≡ mem v (demo_versions t)) × (demo_versions u ≡ demo_versions t)
has_version_told v none u b h = absurd (cc (ap (λ q. q.0) h))
has_version_told v (some t) u b h =
    (ap (λ q. answer_or b q.0) (sym h), ap (λ q. demo_versions q.1) (sym h))

add_version_records :
    (v : Str) (t : Option (List Str))
    → (add_version v t).0 ≡ none
    → (k : Str)
    → mem k (demo_versions (add_version v t).1) ≡ (str_eq v k || mem k (demo_versions t))
unfolding mem
add_version_records v none h k = absurd (cc h)
add_version_records v (some t) h k = refl

committed_next :
    (t u : Option (List Str)) (w after : List Str)
    → committed t w ≡ (none, after)
    → demo_transactions.begin after ≡ ok u
    → demo_versions u ≡ demo_versions t
committed_next none u w after h next = absurd (cc (ap (λ q. q.0) h))
committed_next (some t) u w after h next =
    ap (λ r. demo_versions (state_or u r)) (sym next) ∙ ap (λ q. q.1) (sym h)

demo_transactions-IsRecording : IsRecording demo_transactions demo_versions
demo_transactions-IsRecording = record {
  locks = statement_keeps;
  ensures = statement_keeps;
  asks = has_version_told;
  records = add_version_records;
  commits = committed_next;
}

run_sql-IsApart :
    (m : Migration) → is_empty m.sql ≡ false → IsApart demo_transactions demo_versions m
run_sql-IsApart m shown none h = refl
run_sql-IsApart m shown (some t) h = elim (Bool-cases (str_eq m.sql [])) [
  | inl blank ↦ absurd (cc (ap is_empty ((str_eq_iff m.sql []).0 blank), shown))
  | inr full ↦ rw full refl
]

abbrev init : Migration
init = record { version = str "0001_init"; sql = str "CREATE TABLE users" }

abbrev index : Migration
index = record { version = str "0002_index"; sql = str "CREATE INDEX" }

abbrev demo_migrations : List Migration
demo_migrations = init ∷ index ∷ []

abbrev demo_migrated : List Str
demo_migrated = str "0002_index" ∷ str "0001_init" ∷ []

demo_migrations-migrated : migrate demo_transactions (ok demo_migrations) [] ≡ (none, demo_migrated)
unfolding migrate after_lock after_table apply_all apply_missing after_apply after_record
    next_migration commit_or after_commit mem str_eq
demo_migrations-migrated = refl

migrate_again_example :
    ((u : Option (List Str))
      → demo_transactions.begin demo_migrated ≡ ok u
      → AllRecorded demo_transactions demo_versions demo_transactions-IsRecording demo_migrations u)
    × (migrate
          (with_other demo_transactions demo_versions demo_transactions-IsRecording
            (λ sql t. (some aborted, none))
            (λ v t. (some aborted, none)))
          (ok demo_migrations)
          demo_migrated
        ≡ migrate demo_transactions (ok demo_migrations) demo_migrated)
migrate_again_example =
    migrate_again demo_transactions demo_versions demo_transactions-IsRecording demo_migrations []
      demo_migrated (λ sql t. (some aborted, none)) (λ v t. (some aborted, none))
      (run_sql-IsApart init refl, (run_sql-IsApart index refl, tt)) demo_migrations-migrated

-- The one file of the directory's SQL files.
abbrev one_file : Str → Result Str
one_file path =
    if str_eq path (str "migrations/postgres/001_create_auth_tables.sql")
    then ok (str "CREATE TABLE users ()")
    else err (new_error "file does not exist")

postgres_migration_files-IsRead_example :
    (ms : List Migration) × (postgres_migration_files one_file (
        ok (
          record { name = str "001_create_auth_tables.sql"; is_dir = false }
          ∷ record { name = str "README.md"; is_dir = false }
          ∷ []))
      ≡ ok ms)
    × (map file_name ms
        ≡ sql_names (
            record { name = str "001_create_auth_tables.sql"; is_dir = false }
            ∷ record { name = str "README.md"; is_dir = false }
            ∷ []))
    × All (IsFile one_file) ms
unfolding sql_names ends_in str_eq
postgres_migration_files-IsRead_example =
    postgres_migration_files-IsRead one_file
      (record { name = str "001_create_auth_tables.sql"; is_dir = false }
        ∷ record { name = str "README.md"; is_dir = false }
        ∷ [])
      ((str "CREATE TABLE users ()", refl), tt)

sql_names_demo :
    sql_names (
      record { name = str "001_create_auth_tables.sql"; is_dir = false }
      ∷ record { name = str "README.md"; is_dir = false }
      ∷ [])
    ≡ str "001_create_auth_tables.sql" ∷ []
unfolding sql_names ends_in str_eq
sql_names_demo = refl
