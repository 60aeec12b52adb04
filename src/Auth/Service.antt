-- ===== src/Auth/Service.antt =====
-- The operations of internal/auth/auth.go.
use toyotaview.Common.{
  ltb, ◌+ℤ◌, ◌||◌, Option, none, some, Str, length, is_empty, GoError, sentinel, wrapped, is_error,
  invalid_credentials, invalid_password, invalid_session, invalid_username, username_taken,
  duplicate_user, session_not_found, user_not_found, Result, ok, err, Duration, if◌then◌else◌,
}
use toyotaview.Common.Text.{to_lower, trim_space}
use toyotaview.Auth.Types.{User, Session, Store, Library, SessionResult}

unfoldable pub validate_username : Str → Option GoError
validate_username username =
    if is_empty username || ltb 100 (length username)
    then some (sentinel invalid_username)
    else none

unfoldable pub validate_password : Str → Option GoError
validate_password password =
    if is_empty password || ltb 72 (length password) then some (sentinel invalid_password) else none

module _ {W : Type 0} (lib : Library W) where
  unfoldable pub normalize_username : Str → Str
  normalize_username username = to_lower lib.lower_unicode (trim_space username)

  unfoldable pub token_hash : Str → Str
  token_hash token = lib.hex_encode (lib.sha256 token)

module _ {W : Type 0} (lib : Library W) (store : Store W) (session_ttl : Duration) where
  -- The end of createSession.
  unfoldable pub finish_session : User → Str → Result Session × W → Result SessionResult × W
  finish_session user token (err e, w) = (err (wrapped "create session" e), w)
  finish_session user token (ok session, w) =
      (ok (record { token = token; user = user; session = session }), w)

  unfoldable pub open_session : User → Str → Option GoError × W → Result SessionResult × W
  open_session user token (some e, w) = (err (wrapped "delete expired sessions" e), w)
  open_session user token (none, w) = finish_session user token (
      store.create_session
        (record {
          token_hash = token_hash lib token;
          user_id = user.id;
          expires_at = lib.now w +ℤ session_ttl;
        })
        w)

  unfoldable pub with_token : User → Result Str × W → Result SessionResult × W
  with_token user (err e, w) = (err (wrapped "generate session token" e), w)
  with_token user (ok bytes, w) =
      open_session user (lib.base64_encode bytes) (store.delete_expired_sessions w)

  unfoldable pub create_session : User → W → Result SessionResult × W
  create_session user w = with_token user (lib.random_bytes 32 w)

  unfoldable pub after_create_user : Result User × W → Result SessionResult × W
  after_create_user (err e, w) = (
    err (if is_error duplicate_user e then sentinel username_taken else wrapped "create user" e),
    w,
  )
  after_create_user (ok user, w) = create_session user w

  unfoldable pub after_hash : Str → Result Str × W → Result SessionResult × W
  after_hash username (err e, w) = (err (wrapped "hash password" e), w)
  after_hash username (ok hash, w) =
      after_create_user (store.create_user (record { username = username; password_hash = hash }) w)

  unfoldable pub signup : Str → Str → W → Result SessionResult × W
  signup username password w =
      let normalized = normalize_username lib username in
      elim (validate_username normalized) [
        | some e ↦ (err e, w)
        | none ↦ elim (validate_password password) [
          | some e ↦ (err e, w)
          | none ↦ after_hash normalized (lib.generate_from_password password w)
        ]
      ]

  unfoldable pub after_find_user : Str → Result User × W → Result SessionResult × W
  after_find_user password (err e, w) = (
    err (if is_error user_not_found e then sentinel invalid_credentials else wrapped "find user" e),
    w,
  )
  after_find_user password (ok user, w) =
      elim (lib.compare_hash_and_password user.password_hash password) [
        | some e ↦ (err (sentinel invalid_credentials), w)
        | none ↦ create_session user w
      ]

  unfoldable pub login : Str → Str → W → Result SessionResult × W
  login username password w =
      let normalized = normalize_username lib username in
      elim (validate_username normalized) [
        | some e ↦ (err (sentinel invalid_credentials), w)
        | none ↦ elim (validate_password password) [
          | some e ↦ (err (sentinel invalid_credentials), w)
          | none ↦ after_find_user password (store.find_user_by_username normalized w)
        ]
      ]

  unfoldable pub after_find_session : Result Session × W → Result Session × W
  after_find_session (err e, w) = (
    err (
        if is_error session_not_found e
        then sentinel invalid_session
        else wrapped "find session" e),
    w,
  )
  after_find_session (ok session, w) = (ok session, w)

  unfoldable pub authenticate_token : Str → W → Result Session × W
  authenticate_token token w =
      let trimmed = trim_space token in
      if is_empty trimmed
      then (err (sentinel invalid_session), w)
      else after_find_session (store.find_session_by_token_hash (token_hash lib trimmed) w)

  unfoldable pub after_delete : Option GoError × W → Option GoError × W
  after_delete (some e, w) = (some (wrapped "delete session" e), w)
  after_delete (none, w) = (none, w)

  unfoldable pub logout : Str → W → Option GoError × W
  logout token w =
      let trimmed = trim_space token in
      if is_empty trimmed
      then (none, w)
      else after_delete (store.delete_session (token_hash lib trimmed) w)
