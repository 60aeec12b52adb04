-- ===== src/Storage/Sql/Sessions.antt =====
-- The life of a session over sqlStore: from a login of internal/auth/auth.go to its expiry, and what
-- sqlStore promises the accounts of sessions.
use toyotaview.Common.{
  ◌<ℤ◌, ◌≤ℤ◌, ◌+ℤ◌, Str, sentinel, invalid_session, ok, err, Duration, Time, ◌≡◌, subst, sym, ap,
  ◌∙◌,
}
use toyotaview.Auth.Types.{Library, SessionResult}
use toyotaview.Auth.Service.{login, authenticate_token}
use toyotaview.Auth.Laws.{login_granted}
use toyotaview.Auth.Sessions.{
  IsEncoding, IsFinding, IsForgetting, authenticate_token-found, authenticate_token-lost,
}
use toyotaview.Storage.Unix.{to_unix, IsWithinSecond, IsWithinSecond-from_unix, to_unix-from_unix}
use toyotaview.Storage.Queries.{SqlDialect}
use toyotaview.Storage.Sql.{SessionRow, Database, sql_store}
use toyotaview.Storage.Sql.Laws.{
  IsTable, IsDeleting, sql_find_session-create, sql_find_session-delete,
}

module _ {W : Type 0} (db : Database W) (dialect : SqlDialect)
    (Holds : SessionRow → W → Type 0) where
  -- The second of an expiry is yet to come, by the clock that sqlStore asks.
  abbrev pub IsAhead : Time → W → Type 0
  IsAhead expiry w = to_unix (db.now w) <ℤ to_unix expiry

  -- Where the queries on the sessions keep their promises, sqlStore keeps those that the accounts
  -- rely on: a session that was created is found at its hash right after it, if its expiry is ahead,
  -- and one that was deleted without an error is not found.
  pub sql_store-IsFinding :
      IsTable db dialect Holds
      → IsDeleting db dialect
      → IsFinding (sql_store db dialect) IsAhead × IsForgetting (sql_store db dialect)
  unfolding sql_store
  sql_store-IsFinding table deleting = (
    record {
      finds_created = λ params session before after made live.
          let (row, held, expiry, life) =
            sql_find_session-create db dialect Holds table params session before after made in
          let second : to_unix session.expires_at ≡ to_unix params.expires_at =
            ap to_unix expiry ∙ to_unix-from_unix (to_unix params.expires_at) in
          (life after held).0 (subst (λ e. to_unix (db.now after) <ℤ e) second live);
    },
    record {
      forgets_deleted =
          λ hash before gone. sql_find_session-delete db dialect hash before deleting gone;
    },
  )

  module _ (lib : Library W) (session_ttl : Duration) where
    -- The life of a session that expires at the second of an instant, in the states where the table
    -- holds its row.
    abbrev pub Lives : SessionResult → SessionRow → Time → Type 0
    Lives r row end =
        (later : W)
        → Holds row later
        → (to_unix (db.now later) <ℤ to_unix end
            → (authenticate_token lib (sql_store db dialect) session_ttl r.token later).0
              ≡ ok r.session)
          × (to_unix end ≤ℤ to_unix (db.now later)
              → (authenticate_token lib (sql_store db dialect) session_ttl r.token later).0
                ≡ err (sentinel invalid_session))

    -- Where the queries and the making of tokens keep their promises, the session of a login over
    -- sqlStore has a row in the table, and expires at the start of the second that lies the
    -- configured time after the moment at which it was made. In every state in which the table holds
    -- the row, the token opens the session while the clock's second is before that second, and is
    -- refused with ErrInvalidSession from then on.
    pub authenticate_token-sql_login :
        (username password : Str) (w after : W) (r : SessionResult)
        → IsTable db dialect Holds
        → IsEncoding lib
        → login lib (sql_store db dialect) session_ttl username password w ≡ (ok r, after)
        → (made : W) × (row : SessionRow) × Holds row after
          × IsWithinSecond r.session.expires_at (lib.now made +ℤ session_ttl)
          × Lives r row (lib.now made +ℤ session_ttl)
    unfolding sql_store
    authenticate_token-sql_login username password w after r table encodes granted =
        let found =
          login_granted lib (sql_store db dialect) session_ttl username password w after r
            granted in
        let opened = found.3 in
        let (row, held, expiry, life) =
          sql_find_session-create db dialect Holds table opened.params r.session opened.before after
            opened.created in
        let within : IsWithinSecond r.session.expires_at opened.params.expires_at =
          subst (λ t. IsWithinSecond t opened.params.expires_at) (sym expiry)
            (IsWithinSecond-from_unix opened.params.expires_at) in
        let lives : Lives r row opened.params.expires_at = λ later there. (
          λ live.
              authenticate_token-found lib (sql_store db dialect) session_ttl found.0 r after
                encodes opened r.session later ((life later there).0 live),
          λ over.
              authenticate_token-lost lib (sql_store db dialect) session_ttl found.0 r after encodes
                opened later ((life later there).1 over),
        ) in
        (
          opened.before,
          row,
          held,
          subst (IsWithinSecond r.session.expires_at) opened.lasts within,
          subst (Lives r row) opened.lasts lives,
        )
