-- ===== src/Auth/Sessions.antt =====
-- The life of a session: a token that was handed out opens its session, and no longer after the
-- session is deleted.
use toyotaview.Common.{
  ℕ, ◌<◌, length, arith, true, false, Option, none, some, Str, is_empty, GoError, sentinel,
  is_error, session_not_found, invalid_session, Result, ok, err, Sentinel-refl, Time, Duration, ◌≡◌,
  refl, sym, ap, ◌∙◌,
}
use toyotaview.Common.Text.{trim_space}
use toyotaview.Auth.Types.{User, Session, CreateSessionParams, Store, Library, SessionResult}
use toyotaview.Auth.Service.{
  token_hash, login, authenticate_token, after_find_session, logout, after_delete,
}
use toyotaview.Auth.Laws.{IsOpened, login_granted}

-- What the storage promises of a session that was just created: it is found at its hash, where its
-- expiry lies in the future of the storage's clock.
pub record IsFinding {W : Type 0} (store : Store W) (IsFuture : Time → W → Type 0) : Type 0 where
  pub finds_created :
      (params : CreateSessionParams) (session : Session) (before after : W)
      → store.create_session params before ≡ (ok session, after)
      → IsFuture session.expires_at after
      → (store.find_session_by_token_hash params.token_hash after).0 ≡ ok session

-- What it promises of a session that was just deleted: it is not found.
pub record IsForgetting {W : Type 0} (store : Store W) : Type 0 where
  pub forgets_deleted :
      (hash : Str) (before : W)
      → (store.delete_session hash before).0 ≡ none
      → (store.find_session_by_token_hash hash (store.delete_session hash before).1).0
        ≡ err (sentinel session_not_found)

-- What the making of a token promises: the random source gives as many bytes as it is asked for, and
-- the encoding of bytes has no white space at its ends, and is empty only for no bytes.
pub record IsEncoding {W : Type 0} (lib : Library W) : Type 0 where
  pub fills : (n : ℕ) (w : W) (bytes : Str) → (lib.random_bytes n w).0 ≡ ok bytes → length bytes ≡ n
  pub plain : (bytes : Str) → trim_space (lib.base64_encode bytes) ≡ lib.base64_encode bytes
  pub shown : (bytes : Str) → 0 < length bytes → is_empty (lib.base64_encode bytes) ≡ false

abbrev error_or : GoError → Result Session → GoError
error_or x (ok s) = x
error_or x (err e) = e

module _ {W : Type 0} (lib : Library W) (store : Store W) (session_ttl : Duration) where
  after_find_session-found :
      (p : Result Session × W) (session : Session)
      → p.0 ≡ ok session
      → (after_find_session lib store session_ttl p).0 ≡ ok session
  unfolding after_find_session
  after_find_session-found (ok s, w) session e = e
  after_find_session-found (err x, w) session e = absurd (cc e)

  after_find_session-lost :
      (p : Result Session × W)
      → p.0 ≡ err (sentinel session_not_found)
      → (after_find_session lib store session_ttl p).0 ≡ err (sentinel invalid_session)
  unfolding after_find_session
  after_find_session-lost (ok s, w) e = absurd (cc e)
  after_find_session-lost (err x, w) e =
      let same : x ≡ sentinel session_not_found = ap (error_or x) e in
      let known : is_error session_not_found x ≡ true =
        ap (is_error session_not_found) same ∙ Sentinel-refl session_not_found in
      rw known refl

  after_delete-world : (p : Option GoError × W) → (after_delete lib store session_ttl p).1 ≡ p.1
  unfolding after_delete
  after_delete-world (some e, w) = refl
  after_delete-world (none, w) = refl

  after_delete-none :
      (p : Option GoError × W) → (after_delete lib store session_ttl p).0 ≡ none → p.0 ≡ none
  unfolding after_delete
  after_delete-none (some e, w) h = absurd (cc h)
  after_delete-none (none, w) h = refl

  -- The token of an opened session is its own trimmed form, and is not empty.
  pub token_lem :
      (user : User) (r : SessionResult) (after : W)
      → IsEncoding lib
      → IsOpened lib store session_ttl user r after
      → (trim_space r.token ≡ r.token) × (is_empty r.token ≡ false)
  token_lem user r after encodes opened =
      let filled : 0 < length opened.bytes =
        omega (arith, encodes.fills 32 opened.source opened.bytes opened.drawn) in
      (
        ap trim_space opened.encoded ∙ encodes.plain opened.bytes ∙ sym opened.encoded,
        ap is_empty opened.encoded ∙ encodes.shown opened.bytes filled,
      )

  module _ (user : User) (r : SessionResult) (after : W) (encodes : IsEncoding lib)
      (opened : IsOpened lib store session_ttl user r after) where
    hash_of_token :
        (later : W)
        → (store.find_session_by_token_hash (token_hash lib r.token) later).0
          ≡ (store.find_session_by_token_hash opened.params.token_hash later).0
    hash_of_token later =
        ap (λ hash. (store.find_session_by_token_hash hash later).0) (sym opened.hashed)

    -- The token of an opened session authenticates while the storage finds the session.
    pub authenticate_token-found :
        (session : Session) (later : W)
        → (store.find_session_by_token_hash opened.params.token_hash later).0 ≡ ok session
        → (authenticate_token lib store session_ttl r.token later).0 ≡ ok session
    unfolding authenticate_token
    authenticate_token-found session later found =
        let token = token_lem user r after encodes opened in
        rw (token.0, token.1) (after_find_session-found _ session (hash_of_token later ∙ found))

    -- It is refused once the storage does not find it.
    pub authenticate_token-lost :
        (later : W)
        → (store.find_session_by_token_hash opened.params.token_hash later).0
          ≡ err (sentinel session_not_found)
        → (authenticate_token lib store session_ttl r.token later).0
          ≡ err (sentinel invalid_session)
    unfolding authenticate_token
    authenticate_token-lost later lost =
        let token = token_lem user r after encodes opened in
        rw (token.0, token.1) (after_find_session-lost _ (hash_of_token later ∙ lost))

  -- Where the storage and the encoding of tokens keep their promises, the token that a login
  -- returned opens the session that it returned, right after the login, if the session's expiry
  -- lies in the future then.
  pub authenticate_token-login :
      (IsFuture : Time → W → Type 0) (username password : Str) (w after : W) (r : SessionResult)
      → IsFinding store IsFuture
      → IsEncoding lib
      → IsFuture r.session.expires_at after
      → login lib store session_ttl username password w ≡ (ok r, after)
      → (authenticate_token lib store session_ttl r.token after).0 ≡ ok r.session
  authenticate_token-login IsFuture username password w after r keeps encodes live granted =
      let found = login_granted lib store session_ttl username password w after r granted in
      authenticate_token-found found.0 r after encodes (found.3) r.session after (
        keeps.finds_created (found.3.params) r.session (found.3.before) after (found.3.created)
          live)

  -- Where the storage keeps its promises, a token that is not blank opens no session right after a
  -- logout with it that returned no error.
  pub authenticate_token-logout :
      (token : Str) (w : W)
      → IsForgetting store
      → is_empty (trim_space token) ≡ false
      → (logout lib store session_ttl token w).0 ≡ none
      → (authenticate_token lib store session_ttl token (logout lib store session_ttl token w).1).0
        ≡ err (sentinel invalid_session)
  unfolding authenticate_token logout
  authenticate_token-logout token w keeps shown gone =
      let deleted = store.delete_session (token_hash lib (trim_space token)) w in
      rw (shown, after_delete-world deleted)
        (after_find_session-lost _ (
          keeps.forgets_deleted (token_hash lib (trim_space token)) w
            (after_delete-none deleted (rw (logout, shown) at gone))))

  -- The token that a login returned is not blank.
  pub token_shown-login :
      (username password : Str) (w after : W) (r : SessionResult)
      → IsEncoding lib
      → login lib store session_ttl username password w ≡ (ok r, after)
      → is_empty (trim_space r.token) ≡ false
  token_shown-login username password w after r encodes granted =
      let found = login_granted lib store session_ttl username password w after r granted in
      let token = token_lem found.0 r after encodes (found.3) in ap is_empty token.0 ∙ token.1
