-- ===== src/Storage/Sql.antt =====
-- sqlStore of internal/storage/storage.go over database/sql, as the storage of the accounts.
pub mod Laws
pub mod Sessions
pub mod Accounts
use toyotaview.Common.{
  ℤ, Bool, ◌||◌, Option, none, some, List, [], ◌∷◌, Str, str, String, GoError, sentinel, wrapped,
  is_error, duplicate_user, user_not_found, session_not_found, no_rows, Result, ok, err, Time,
  contains_str, if◌then◌else◌,
}
use toyotaview.Common.Text.{to_lower}
use toyotaview.Auth.Types.{User, Session, CreateUserParams, CreateSessionParams, Store}
use toyotaview.Storage.Unix.{to_unix, from_unix}
use toyotaview.Storage.Queries.{
  SqlDialect, create_user_sql, find_user_by_username_sql, create_session_sql,
  find_session_by_token_hash_sql, delete_session_sql, delete_expired_sessions_sql,
}

pub data Argument : Type 0 where
  text : Str → Argument
  integer : ℤ → Argument

-- The columns that scanUser and scanSession read.
pub record UserRow : Type 0 where
  pub id : ℤ
  pub username : Str
  pub password_hash : Str
  pub created_at_unix : ℤ

pub record SessionRow : Type 0 where
  pub token_hash : Str
  pub user_id : ℤ
  pub expires_at_unix : ℤ
  pub created_at_unix : ℤ

-- What the code asks of database/sql and of the clock: QueryRowContext with the Scan of its row into
-- these columns, and ExecContext. `error_text` is the text of an error.
pub record Database (W : Type 0) : Type 0 where
  pub query_user : String → List Argument → W → Result UserRow × W
  pub query_session : String → List Argument → W → Result SessionRow × W
  pub exec : String → List Argument → W → Option GoError × W
  pub now : W → Time
  pub error_text : GoError → Str
  pub lower_unicode : Str → Str

unfoldable pub scan_user : UserRow → User
scan_user row = record {
  id = row.id;
  username = row.username;
  password_hash = row.password_hash;
  created_at = from_unix row.created_at_unix;
}

unfoldable pub scan_session : SessionRow → Session
scan_session row = record {
  token_hash = row.token_hash;
  user_id = row.user_id;
  expires_at = from_unix row.expires_at_unix;
  created_at = from_unix row.created_at_unix;
}

-- An error of ExecContext.
unfoldable pub exec_error : {W : Type 0} → String → Option GoError × W → Option GoError × W
exec_error what (none, w) = (none, w)
exec_error what (some e, w) = (some (wrapped what e), w)

module _ {W : Type 0} (db : Database W) (dialect : SqlDialect) where
  unfoldable pub is_unique_violation : GoError → Bool
  is_unique_violation e =
      let message = to_lower db.lower_unicode (db.error_text e) in
      contains_str message (str "unique")
      || contains_str message (str "duplicate key")
      || contains_str message (str "constraint failed")

  unfoldable pub after_create_row : Result UserRow × W → Result User × W
  unfolding is_unique_violation scan_user
  after_create_row (ok row, w) = (ok (scan_user row), w)
  after_create_row (err e, w) =
      (err (if is_unique_violation e then sentinel duplicate_user else wrapped "create user" e), w)

  unfoldable pub sql_create_user : CreateUserParams → W → Result User × W
  unfolding after_create_row
  sql_create_user params w = after_create_row (
      db.query_user (create_user_sql dialect)
        (text params.username ∷ text params.password_hash ∷ integer (to_unix (db.now w)) ∷ []) w)

  unfoldable pub after_find_user_row : Result UserRow × W → Result User × W
  unfolding scan_user
  after_find_user_row (ok row, w) = (ok (scan_user row), w)
  after_find_user_row (err e, w) = (
    err (if is_error no_rows e then sentinel user_not_found else wrapped "find user by username" e),
    w,
  )

  unfoldable pub sql_find_user_by_username : Str → W → Result User × W
  unfolding after_find_user_row
  sql_find_user_by_username username w =
      after_find_user_row (db.query_user (find_user_by_username_sql dialect) (text username ∷ []) w)

  unfoldable pub after_create_session_row : Result SessionRow × W → Result Session × W
  unfolding scan_session
  after_create_session_row (ok row, w) = (ok (scan_session row), w)
  after_create_session_row (err e, w) = (err (wrapped "create session" e), w)

  unfoldable pub sql_create_session : CreateSessionParams → W → Result Session × W
  unfolding after_create_session_row
  sql_create_session params w = after_create_session_row (
      db.query_session (create_session_sql dialect)
        (text params.token_hash
          ∷ integer params.user_id
          ∷ integer (to_unix params.expires_at)
          ∷ integer (to_unix (db.now w))
          ∷ [])
        w)

  unfoldable pub after_find_session_row : Result SessionRow × W → Result Session × W
  unfolding scan_session
  after_find_session_row (ok row, w) = (ok (scan_session row), w)
  after_find_session_row (err e, w) = (
    err (
        if is_error no_rows e
        then sentinel session_not_found
        else wrapped "find session by token hash" e),
    w,
  )

  unfoldable pub sql_find_session_by_token_hash : Str → W → Result Session × W
  unfolding after_find_session_row
  sql_find_session_by_token_hash token_hash w = after_find_session_row (
      db.query_session (find_session_by_token_hash_sql dialect)
        (text token_hash ∷ integer (to_unix (db.now w)) ∷ []) w)

  unfoldable pub sql_delete_session : Str → W → Option GoError × W
  unfolding exec_error
  sql_delete_session token_hash w =
      exec_error "delete session" (db.exec (delete_session_sql dialect) (text token_hash ∷ []) w)

  unfoldable pub sql_delete_expired_sessions : W → Option GoError × W
  unfolding exec_error
  sql_delete_expired_sessions w =
      exec_error "delete expired sessions"
        (db.exec (delete_expired_sessions_sql dialect) (integer (to_unix (db.now w)) ∷ []) w)

  -- sqlStore as the interface that the accounts use.
  unfoldable pub sql_store : Store W
  sql_store = record {
    create_user = sql_create_user;
    find_user_by_username = sql_find_user_by_username;
    create_session = sql_create_session;
    find_session_by_token_hash = sql_find_session_by_token_hash;
    delete_session = sql_delete_session;
    delete_expired_sessions = sql_delete_expired_sessions;
  }
