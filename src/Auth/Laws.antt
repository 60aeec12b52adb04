-- ===== src/Auth/Laws.antt =====
-- What logging in and signing up require, and that the token that they hand out opens the session
-- that they made.
use toyotaview.Common.{
  Option, none, some, Str, GoError, Result, ok, err, Option-cases, Duration, ◌≡◌, ◌+ℤ◌, refl, subst,
  inl, inr,
}
use toyotaview.Auth.Types.{User, Session, CreateSessionParams, Store, Library, SessionResult}
use toyotaview.Auth.Service.{
  validate_username, validate_password, normalize_username, token_hash, finish_session,
  open_session, with_token, create_session, after_find_user, login,
}

module _ {W : Type 0} (lib : Library W) (store : Store W) (session_ttl : Duration) where
  -- A session made for a user: its token encodes fresh random bytes, and the storage holds the session at the hash
  -- of the token.
  pub record IsOpened (user : User) (r : SessionResult) (after : W) : Type 0 where
    pub same_user : r.user ≡ user
    pub bytes : Str
    pub source : W
    pub drawn : (lib.random_bytes 32 source).0 ≡ ok bytes
    pub encoded : r.token ≡ lib.base64_encode bytes
    pub params : CreateSessionParams
    pub before : W
    pub hashed : params.token_hash ≡ token_hash lib r.token
    pub owned : params.user_id ≡ user.id
    pub lasts : params.expires_at ≡ lib.now before +ℤ session_ttl
    pub created : store.create_session params before ≡ (ok r.session, after)

  abbrev Opens : User → Result SessionResult × W → Type 0
  Opens user (ok r, w) = IsOpened user r w
  Opens user (err e, w) = Unit {0}

  finish_session-Opens :
      (user : User) (bytes : Str) (source : W) (params : CreateSessionParams) (before : W)
      (p : Result Session × W)
      → (lib.random_bytes 32 source).0 ≡ ok bytes
      → params.token_hash ≡ token_hash lib (lib.base64_encode bytes)
      → params.user_id ≡ user.id
      → params.expires_at ≡ lib.now before +ℤ session_ttl
      → store.create_session params before ≡ p
      → Opens user (finish_session lib store session_ttl user (lib.base64_encode bytes) p)
  unfolding finish_session
  finish_session-Opens user bytes source params before (err e, w) drawn hashed owned lasts made = tt
  finish_session-Opens user bytes source params before (ok session, w) drawn hashed owned lasts
        made =
      record {
        same_user = refl;
        bytes = bytes;
        source = source;
        drawn = drawn;
        encoded = refl;
        params = params;
        before = before;
        hashed = hashed;
        owned = owned;
        lasts = lasts;
        created = made;
      }

  open_session-Opens :
      (user : User) (bytes : Str) (source : W) (p : Option GoError × W)
      → (lib.random_bytes 32 source).0 ≡ ok bytes
      → Opens user (open_session lib store session_ttl user (lib.base64_encode bytes) p)
  unfolding open_session
  open_session-Opens user bytes source (some e, w) drawn = tt
  open_session-Opens user bytes source (none, w) drawn =
      let params : CreateSessionParams = record {
        token_hash = token_hash lib (lib.base64_encode bytes);
        user_id = user.id;
        expires_at = lib.now w +ℤ session_ttl;
      } in
      finish_session-Opens user bytes source params w (store.create_session params w) drawn refl
        refl refl refl

  with_token-Opens :
      (user : User) (source : W) (p : Result Str × W)
      → (lib.random_bytes 32 source).0 ≡ p.0
      → Opens user (with_token lib store session_ttl user p)
  unfolding with_token
  with_token-Opens user source (err e, w) drawn = tt
  with_token-Opens user source (ok bytes, w) drawn =
      open_session-Opens user bytes source (store.delete_expired_sessions w) drawn

  create_session-Opens :
      (user : User) (w : W) → Opens user (create_session lib store session_ttl user w)
  unfolding create_session
  create_session-Opens user w = with_token-Opens user w (lib.random_bytes 32 w) refl

  -- A login that the user's password opened.
  abbrev LoggedIn : Str → Result User → Result SessionResult × W → Type 0
  LoggedIn password found (ok r, w) =
      (user : User) × (found ≡ ok user)
      × (lib.compare_hash_and_password user.password_hash password ≡ none)
      × IsOpened user r w
  LoggedIn password found (err e, w) = Unit {0}

  LoggedIn-Opens :
      (password : Str) (user : User) (p : Result SessionResult × W)
      → lib.compare_hash_and_password user.password_hash password ≡ none
      → Opens user p
      → LoggedIn password (ok user) p
  LoggedIn-Opens password user (ok r, w) same opened = (user, refl, same, opened)
  LoggedIn-Opens password user (err e, w) same opened = tt

  LoggedIn-after_find_user :
      (password : Str) (p : Result User × W)
      → LoggedIn password p.0 (after_find_user lib store session_ttl password p)
  unfolding after_find_user
  LoggedIn-after_find_user password (err e, w) = tt
  LoggedIn-after_find_user password (ok user, w) =
      elim (Option-cases (lib.compare_hash_and_password user.password_hash password)) [
        | inl same ↦
            rw (same, after_find_user)
              (LoggedIn-Opens password user (create_session lib store session_ttl user w) same
                (create_session-Opens user w))
        | inr (e, differs) ↦ rw (differs, after_find_user) tt
      ]

  LoggedIn-login :
      (username password : Str) (w : W)
      → LoggedIn password
          (store.find_user_by_username (normalize_username lib username) w).0
          (login lib store session_ttl username password w)
  unfolding login
  LoggedIn-login username password w =
      elim (Option-cases (validate_username (normalize_username lib username))) [
        | inr (e, bad) ↦ rw (bad, login) tt
        | inl good ↦ elim (Option-cases (validate_password password)) [
          | inr (e, bad) ↦ rw (good, bad, login) tt
          | inl fine ↦
              rw (good, fine, login)
                (LoggedIn-after_find_user password
                  (store.find_user_by_username (normalize_username lib username) w))
        ]
      ]

  -- Login returns a session only for a user that the storage has under the normal form of the
  -- name, and only if the password matches the user's hash; the session is that user's, at the
  -- hash of a fresh token, and lasts for the configured time.
  pub login_granted :
      (username password : Str) (w after : W) (r : SessionResult)
      → login lib store session_ttl username password w ≡ (ok r, after)
      → (user : User) × ((store.find_user_by_username (normalize_username lib username) w).0
          ≡ ok user)
        × (lib.compare_hash_and_password user.password_hash password ≡ none)
        × IsOpened user r after
  login_granted username password w after r granted =
      subst (LoggedIn password (store.find_user_by_username (normalize_username lib username) w).0)
        granted (LoggedIn-login username password w)
