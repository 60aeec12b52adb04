-- ===== src/Auth/Types.antt =====
-- The data and the interfaces of internal/storage/storage.go that internal/auth/auth.go uses, and
-- what it asks of Go's library: bcrypt, the random source, SHA-256, base64 and the clock.
use toyotaview.Common.{ℕ, ℤ, Option, Str, GoError, Result, Time}

pub record User : Type 0 where
  pub id : ℤ
  pub username : Str
  pub password_hash : Str
  pub created_at : Time

pub record Session : Type 0 where
  pub token_hash : Str
  pub user_id : ℤ
  pub expires_at : Time
  pub created_at : Time

pub record CreateUserParams : Type 0 where
  pub username : Str
  pub password_hash : Str

pub record CreateSessionParams : Type 0 where
  pub token_hash : Str
  pub user_id : ℤ
  pub expires_at : Time

-- UserStore and SessionStore.
pub record Store (W : Type 0) : Type 0 where
  pub create_user : CreateUserParams → W → Result User × W
  pub find_user_by_username : Str → W → Result User × W
  pub create_session : CreateSessionParams → W → Result Session × W
  pub find_session_by_token_hash : Str → W → Result Session × W
  pub delete_session : Str → W → Option GoError × W
  pub delete_expired_sessions : W → Option GoError × W

pub record Library (W : Type 0) : Type 0 where
  -- bcrypt: a hash with a random salt, and the comparison of a hash with a password.
  pub generate_from_password : Str → W → Result Str × W
  pub compare_hash_and_password : Str → Str → Option GoError
  pub random_bytes : ℕ → W → Result Str × W
  pub sha256 : Str → Str
  pub hex_encode : Str → Str
  pub base64_encode : Str → Str
  pub now : W → Time
  pub lower_unicode : Str → Str

pub record SessionResult : Type 0 where
  pub token : Str
  pub user : User
  pub session : Session
