-- ===== src/Storage/Sqlite/Laws.antt =====
-- What NewSQLite does to the file system.
use toyotaview.Common.{false, none, Str, ◌≡◌, refl, arith}
use toyotaview.Config.Types.{SqliteConfig}
use toyotaview.Storage.Sqlite.{
  Files, is_sqlite_filesystem_path, if_fine, wipe, ensure_sqlite_dir, open_configured, new_sqlite,
}

module _ {W : Type 0} (files : Files W) where
  wipe_in_memory :
      (cfg : SqliteConfig) (w : W)
      → is_sqlite_filesystem_path cfg.path ≡ false
      → wipe files cfg w ≡ (none, w)
  unfolding wipe is_sqlite_filesystem_path
  wipe_in_memory cfg w h = ground (arith, h)

  ensure_sqlite_dir_in_memory :
      (path : Str) (w : W)
      → is_sqlite_filesystem_path path ≡ false
      → ensure_sqlite_dir files path w ≡ (none, w)
  unfolding ensure_sqlite_dir is_sqlite_filesystem_path
  ensure_sqlite_dir_in_memory path w h = ground (arith, h)

  -- A database that is no file of its own (in memory, or named by a URI) is opened without a file
  -- being removed or a directory being made, even where it is to be wiped.
  pub new_sqlite_in_memory :
      (cfg : SqliteConfig) (w : W)
      → is_sqlite_filesystem_path cfg.path ≡ false
      → new_sqlite files cfg w ≡ open_configured files cfg.path w
  unfolding new_sqlite if_fine
  new_sqlite_in_memory cfg w h =
      rw (wipe_in_memory cfg w h, ensure_sqlite_dir_in_memory cfg.path w h) refl
