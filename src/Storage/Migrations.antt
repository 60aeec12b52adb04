-- ===== src/Storage/Migrations.antt =====
-- Postgres.Migrate of internal/storage/postgres.go, over a transaction of database/sql, at the list of
-- the migrations, which the module Files reads from the embedded files.
pub mod Laws
pub mod Files
mod Tests
use toyotaview.Common.{
  Bool, true, false, Option, none, some, List, [], ◌∷◌, Str, GoError, formatted_with, wrapped,
  Result, ok, err,
}

pub record Migration : Type 0 where
  pub version : Str
  pub sql : Str

-- What the code asks of a transaction in a state of type `T`: the advisory lock, the table of the
-- versions, whether a version is recorded, the run of a migration's SQL, and the record of a version.
-- `begin` and `commit` are the start and the end of a transaction on a database in a state of type
-- `W`; a transaction that is not committed is rolled back and leaves the database as it was.
pub record Transactions (W T : Type 0) : Type 0 where
  pub begin : W → Result T
  pub lock : T → Option GoError × T
  pub ensure_table : T → Option GoError × T
  pub is_recorded : Str → T → Result Bool × T
  pub apply : Str → T → Option GoError × T
  pub record_version : Str → T → Option GoError × T
  pub commit : T → W → Option GoError × W

module _ {W T : Type 0} (tx : Transactions W T) where
  unfoldable pub after_record : Str → Option GoError × T → Option GoError × T
  after_record version (none, t) = (none, t)
  after_record version (some e, t) =
      (some (formatted_with "record postgres migration %s: %w" (version ∷ []) e), t)

  unfoldable pub after_apply : Str → Option GoError × T → Option GoError × T
  unfolding after_record
  after_apply version (none, t) = after_record version (tx.record_version version t)
  after_apply version (some e, t) =
      (some (formatted_with "apply postgres migration %s: %w" (version ∷ []) e), t)

  -- One round of the loop, once it is known whether the version is recorded.
  unfoldable pub apply_missing : Migration → Result Bool × T → Option GoError × T
  unfolding after_apply
  apply_missing m (err e, t) =
      (some (formatted_with "check postgres migration %s: %w" (m.version ∷ []) e), t)
  apply_missing m (ok true, t) = (none, t)
  apply_missing m (ok false, t) = after_apply m.version (tx.apply m.sql t)

  unfoldable pub next_migration : (T → Option GoError × T) → Option GoError × T → Option GoError × T
  next_migration rest (none, t) = rest t
  next_migration rest (some e, t) = (some e, t)

  -- The loop of Migrate.
  unfoldable pub apply_all : List Migration → T → Option GoError × T
  unfolding apply_missing next_migration
  apply_all [] t = (none, t)
  apply_all (m ∷ migrations) t =
      next_migration (apply_all migrations) (apply_missing m (tx.is_recorded m.version t))

  unfoldable pub after_commit : Option GoError × W → Option GoError × W
  after_commit (none, w) = (none, w)
  after_commit (some e, w) = (some (wrapped "commit postgres migrations" e), w)

  -- Commits, or leaves the database as it was.
  unfoldable pub commit_or : W → Option GoError × T → Option GoError × W
  unfolding after_commit
  commit_or w (none, t) = after_commit (tx.commit t w)
  commit_or w (some e, t) = (some e, w)

  unfoldable pub after_table : Result (List Migration) → Option GoError × T → Option GoError × T
  unfolding apply_all
  after_table files (some e, t) = (some (wrapped "ensure postgres migration table" e), t)
  after_table (err e) (none, t) = (some e, t)
  after_table (ok migrations) (none, t) = apply_all migrations t

  unfoldable pub after_lock : Result (List Migration) → Option GoError × T → Option GoError × T
  unfolding after_table
  after_lock files (some e, t) = (some (wrapped "lock postgres migrations" e), t)
  after_lock files (none, t) = after_table files (tx.ensure_table t)

  -- Migrate, with the migrations of postgresMigrationFiles.
  unfoldable pub migrate : Result (List Migration) → W → Option GoError × W
  unfolding after_lock commit_or
  migrate files w = elim (tx.begin w) [
    | err e ↦ (some (wrapped "begin postgres migration" e), w)
    | ok t ↦ commit_or w (after_lock files (tx.lock t))
  ]
