-- ===== src/Storage/Queries.antt =====
-- The texts of the queries of internal/storage/storage.go, by the dialect.
use toyotaview.Common.{String}

pub data SqlDialect : Type 0 where
  postgres sqlite : SqlDialect

unfoldable pub create_user_sql : SqlDialect → String
create_user_sql postgres =
    "INSERT INTO users (username, password_hash, created_at)\nVALUES ($1, $2, to_timestamp($3))\nRETURNING id, username, password_hash, EXTRACT(EPOCH FROM created_at)::bigint"
create_user_sql sqlite =
    "INSERT INTO users (username, password_hash, created_at)\nVALUES (?, ?, ?)\nRETURNING id, username, password_hash, created_at"

unfoldable pub find_user_by_username_sql : SqlDialect → String
find_user_by_username_sql postgres =
    "SELECT id, username, password_hash, EXTRACT(EPOCH FROM created_at)::bigint\nFROM users\nWHERE username = $1"
find_user_by_username_sql sqlite =
    "SELECT id, username, password_hash, created_at\nFROM users\nWHERE username = ?"

unfoldable pub create_session_sql : SqlDialect → String
create_session_sql postgres =
    "INSERT INTO sessions (token_hash, user_id, expires_at, created_at)\nVALUES ($1, $2, to_timestamp($3), to_timestamp($4))\nRETURNING token_hash, user_id, EXTRACT(EPOCH FROM expires_at)::bigint, EXTRACT(EPOCH FROM created_at)::bigint"
create_session_sql sqlite =
    "INSERT INTO sessions (token_hash, user_id, expires_at, created_at)\nVALUES (?, ?, ?, ?)\nRETURNING token_hash, user_id, expires_at, created_at"

unfoldable pub find_session_by_token_hash_sql : SqlDialect → String
find_session_by_token_hash_sql postgres =
    "SELECT token_hash, user_id, EXTRACT(EPOCH FROM expires_at)::bigint, EXTRACT(EPOCH FROM created_at)::bigint\nFROM sessions\nWHERE token_hash = $1\n  AND expires_at > to_timestamp($2)"
find_session_by_token_hash_sql sqlite =
    "SELECT token_hash, user_id, expires_at, created_at\nFROM sessions\nWHERE token_hash = ?\n  AND expires_at > ?"

unfoldable pub delete_session_sql : SqlDialect → String
delete_session_sql postgres = "DELETE FROM sessions WHERE token_hash = $1"
delete_session_sql sqlite = "DELETE FROM sessions WHERE token_hash = ?"

unfoldable pub delete_expired_sessions_sql : SqlDialect → String
delete_expired_sessions_sql postgres = "DELETE FROM sessions WHERE expires_at <= to_timestamp($1)"
delete_expired_sessions_sql sqlite = "DELETE FROM sessions WHERE expires_at <= ?"
