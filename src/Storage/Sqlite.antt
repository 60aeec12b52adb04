-- ===== src/Storage/Sqlite.antt =====
-- NewSQLite with its helpers and Migrate in internal/storage/sqlite.go, NewPostgres, and Open of storage.go, over the file
-- system and the drivers.
pub mod Laws
use toyotaview.Common.{
  ℤ, List, ◌++◌, Bool, not, ◌&&◌, ◌||◌, Option, none, some, [], ◌∷◌, Str, str, String, str_eq,
  has_prefix, is_empty, GoError, formatted, wrapped, if◌then◌else◌,
}
use toyotaview.Common.Text.{trim_space}
use toyotaview.Smartcar.Http.{Url}
use toyotaview.Config.Types.{SqliteConfig, StorageConfig, PostgresConfig}

-- What the code asks of package os, of path/filepath and of database/sql. `url_string` is
-- the method String of url.URL, and `user_password` what url.UserPassword prints.
pub record Files (W : Type 0) : Type 0 where
  pub remove : Str → W → Option GoError × W
  -- errors.Is against os.ErrNotExist.
  pub is_not_exist : GoError → Bool
  pub dir : Str → Str
  pub mkdir_all : Str → W → Option GoError × W
  pub open_sqlite : Str → W → Option GoError × W
  pub exec : String → W → Option GoError × W
  pub close : W → W
  pub open_pgx : Str → W → Option GoError × W
  pub url_string : Url → Str
  pub user_password : Str → Str → Str
  pub join_host_port : Str → Str → Str
  pub int_text : ℤ → Str
  pub encode_form : List (String × Str) → Str

unfoldable pub is_sqlite_filesystem_path : Str → Bool
is_sqlite_filesystem_path path =
    let trimmed = trim_space path in
    not (is_empty trimmed)
    && not (str_eq trimmed (str ":memory:"))
    && not (has_prefix trimmed (str "file:"))

unfoldable pub wrap_error : {W : Type 0} → String → Option GoError × W → Option GoError × W
wrap_error what (none, w) = (none, w)
wrap_error what (some e, w) = (some (wrapped what e), w)

unfoldable pub if_fine :
    {W : Type 0} → (W → Option GoError × W) → Option GoError × W → Option GoError × W
if_fine next (none, w) = next w
if_fine next (some e, w) = (some e, w)

module _ {W : Type 0} (files : Files W) where
  unfoldable pub after_remove : Option GoError × W → Option GoError × W
  after_remove (none, w) = (none, w)
  after_remove (some e, w) =
      if files.is_not_exist e then (none, w) else (some (wrapped "wipe sqlite database" e), w)

  unfoldable pub wipe : SqliteConfig → W → Option GoError × W
  unfolding after_remove is_sqlite_filesystem_path
  wipe cfg w =
      if cfg.wipe_on_start && is_sqlite_filesystem_path cfg.path
      then after_remove (files.remove cfg.path w)
      else (none, w)

  unfoldable pub ensure_sqlite_dir : Str → W → Option GoError × W
  unfolding wrap_error is_sqlite_filesystem_path
  ensure_sqlite_dir path w =
      let dir = files.dir path in
      if not (is_sqlite_filesystem_path path)
      then (none, w)
      else if str_eq dir (str ".") || is_empty dir
      then (none, w)
      else wrap_error "create sqlite directory" (files.mkdir_all dir w)

  unfoldable pub configure : W → Option GoError × W
  unfolding if_fine wrap_error
  configure w =
      if_fine
        (λ v. wrap_error "set sqlite busy timeout" (files.exec "PRAGMA busy_timeout = 5000" v))
        (wrap_error "enable sqlite foreign keys" (files.exec "PRAGMA foreign_keys = ON" w))

  -- A store that cannot be configured is closed.
  unfoldable pub close_failed : Option GoError × W → Option GoError × W
  close_failed (none, w) = (none, w)
  close_failed (some e, w) = (some e, files.close w)

  unfoldable pub open_configured : Str → W → Option GoError × W
  unfolding if_fine wrap_error close_failed configure
  open_configured path w =
      if_fine (λ v. close_failed (configure v))
        (wrap_error "open sqlite database" (files.open_sqlite path w))

  unfoldable pub new_sqlite : SqliteConfig → W → Option GoError × W
  unfolding if_fine wipe ensure_sqlite_dir open_configured
  new_sqlite cfg w =
      if_fine (open_configured cfg.path) (if_fine (ensure_sqlite_dir cfg.path) (wipe cfg w))

  unfoldable pub postgres_data_source_name : PostgresConfig → Str
  postgres_data_source_name cfg = files.url_string (record {
    scheme = str "postgres";
    user = files.user_password cfg.user cfg.password;
    host = files.join_host_port cfg.host (files.int_text cfg.port);
    path = str "/" ++ cfg.database;
    raw_query = files.encode_form (("sslmode", cfg.ssl_mode) ∷ []);
  })

  unfoldable pub new_postgres : PostgresConfig → W → Option GoError × W
  unfolding wrap_error
  new_postgres cfg w =
      wrap_error "open postgres database" (files.open_pgx (postgres_data_source_name cfg) w)

  -- sqliteSchema.
  unfoldable pub sqlite_schema : String
  sqlite_schema =
      "\nCREATE TABLE IF NOT EXISTS users (\n  id INTEGER PRIMARY KEY AUTOINCREMENT,\n  username TEXT NOT NULL UNIQUE,\n  password_hash TEXT NOT NULL,\n  created_at INTEGER NOT NULL\n);\n\nCREATE TABLE IF NOT EXISTS sessions (\n  token_hash TEXT PRIMARY KEY,\n  user_id INTEGER NOT NULL REFERENCES users(id) ON DELETE CASCADE,\n  expires_at INTEGER NOT NULL,\n  created_at INTEGER NOT NULL\n);\n\nCREATE INDEX IF NOT EXISTS sessions_user_id_idx ON sessions(user_id);\nCREATE INDEX IF NOT EXISTS sessions_expires_at_idx ON sessions(expires_at);\n"

  -- SQLite.Migrate.
  unfoldable pub migrate_sqlite : W → Option GoError × W
  unfolding wrap_error sqlite_schema
  migrate_sqlite w = wrap_error "migrate sqlite schema" (files.exec sqlite_schema w)

  -- Ping and Close of sqlStore, over the methods of sql.DB.
  unfoldable pub ping_store : (W → Option GoError × W) → W → Option GoError × W
  unfolding wrap_error
  ping_store ping w = wrap_error "ping database" (ping w)

  unfoldable pub close_store : (W → Option GoError × W) → W → Option GoError × W
  unfolding wrap_error
  close_store close w = wrap_error "close database" (close w)

  -- Open.
  unfoldable pub open_storage : StorageConfig → W → Option GoError × W
  unfolding new_sqlite new_postgres
  open_storage cfg w =
      if str_eq cfg.driver (str "sqlite")
      then new_sqlite cfg.sqlite w
      else if str_eq cfg.driver (str "postgres")
      then new_postgres cfg.postgres w
      else (some (formatted "unsupported storage driver %q" (cfg.driver ∷ [])), w)
