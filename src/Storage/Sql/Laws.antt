-- ===== src/Storage/Sql/Laws.antt =====
-- Sessions that sqlStore writes and reads back.
use toyotaview.Common.{
  Option, none, some, String, ℤ, ◌<ℤ◌, ◌≤ℤ◌, [], ◌∷◌, Str, GoError, sentinel, Sentinel-refl,
  no_rows, session_not_found, Result, ok, err, ◌≡◌, refl, sym, ap, subst, ◌∙◌,
}
use toyotaview.Auth.Types.{Session, CreateSessionParams}
use toyotaview.Storage.Unix.{to_unix, from_unix}
use toyotaview.Storage.Queries.{
  SqlDialect, create_session_sql, find_session_by_token_hash_sql, delete_session_sql,
}
use toyotaview.Storage.Sql.{
  text, integer, SessionRow, Database, scan_session, after_create_session_row, sql_create_session,
  after_find_session_row, sql_find_session_by_token_hash, exec_error, sql_delete_session,
}

-- What the queries on the table of sessions promise, for the rows that it holds: an insertion returns
-- the row that it wrote, which the table holds then; a selection at the hash of a row that the table
-- holds finds that row before it expires, and no row from then on.
pub record IsTable {W : Type 0} (db : Database W) (dialect : SqlDialect)
    (Holds : SessionRow → W → Type 0) : Type 0 where
  pub returns :
      (hash : Str) (user expires created : ℤ) (row : SessionRow) (w after : W)
      → db.query_session
          (create_session_sql dialect)
          (text hash ∷ integer user ∷ integer expires ∷ integer created ∷ [])
          w
        ≡ (ok row, after)
      → Holds row after
        × (row ≡ record {
          token_hash = hash;
          user_id = user;
          expires_at_unix = expires;
          created_at_unix = created;
        })
  pub finds :
      (moment : ℤ) (row : SessionRow) (w : W)
      → Holds row w
      → moment <ℤ row.expires_at_unix
      → (db.query_session
          (find_session_by_token_hash_sql dialect)
          (text row.token_hash ∷ integer moment ∷ [])
          w).0
        ≡ ok row
  pub expires :
      (moment : ℤ) (row : SessionRow) (w : W)
      → Holds row w
      → row.expires_at_unix ≤ℤ moment
      → (db.query_session
          (find_session_by_token_hash_sql dialect)
          (text row.token_hash ∷ integer moment ∷ [])
          w).0
        ≡ err (sentinel no_rows)

-- What they promise of a deletion without an error: no row is found at the hash right after it.
pub record IsDeleting {W : Type 0} (db : Database W) (dialect : SqlDialect) : Type 0 where
  pub deletes :
      (hash : Str) (moment : ℤ) (w : W)
      → (db.exec (delete_session_sql dialect) (text hash ∷ []) w).0 ≡ none
      → (db.query_session
          (find_session_by_token_hash_sql dialect)
          (text hash ∷ integer moment ∷ [])
          (db.exec (delete_session_sql dialect) (text hash ∷ []) w).1).0
        ≡ err (sentinel no_rows)

session_or : Session → Result Session → Session
session_or s (ok r) = r
session_or s (err e) = s

error_or : GoError → Result SessionRow → GoError
error_or e (ok row) = e
error_or e (err f) = f

module _ {W : Type 0} (db : Database W) (dialect : SqlDialect) where
  after_create_session_row_ok :
      (p : Result SessionRow × W) (s : Session) (after : W)
      → after_create_session_row db dialect p ≡ (ok s, after)
      → (row : SessionRow) × (p ≡ (ok row, after)) × (scan_session row ≡ s)
  unfolding after_create_session_row session_or
  after_create_session_row_ok (ok row, w) s after h =
      (row, ap (λ q. (ok row, q.1)) h, ap (λ q. session_or s q.0) h)
  after_create_session_row_ok (err e, w) s after h = absurd (cc (ap (λ q. q.0) h))

  after_find_session_row_ok :
      (p : Result SessionRow × W) (row : SessionRow)
      → p.0 ≡ ok row
      → (after_find_session_row db dialect p).0 ≡ ok (scan_session row)
  unfolding after_find_session_row
  after_find_session_row_ok (ok other, w) row h =
      ap (λ r. elim r [ ok found ↦ ok (scan_session found) | err e ↦ err e ]) h
  after_find_session_row_ok (err e, w) row h = absurd (cc h)

  after_find_session_row_gone :
      (p : Result SessionRow × W)
      → p.0 ≡ err (sentinel no_rows)
      → (after_find_session_row db dialect p).0 ≡ err (sentinel session_not_found)
  unfolding after_find_session_row error_or
  after_find_session_row_gone (ok other, w) h = absurd (cc h)
  after_find_session_row_gone (err e, w) h =
      let same : e ≡ sentinel no_rows = ap (error_or e) h in rw (same, Sentinel-refl no_rows) refl

  module _ (Holds : SessionRow → W → Type 0) (table : IsTable db dialect Holds) where
    find_held :
        (row : SessionRow) (later : W)
        → Holds row later
        → (to_unix (db.now later) <ℤ row.expires_at_unix
            → (sql_find_session_by_token_hash db dialect row.token_hash later).0
              ≡ ok (scan_session row))
          × (row.expires_at_unix ≤ℤ to_unix (db.now later)
              → (sql_find_session_by_token_hash db dialect row.token_hash later).0
                ≡ err (sentinel session_not_found))
    unfolding sql_find_session_by_token_hash
    find_held row later held = (
      λ live.
          after_find_session_row_ok _ row
            (table.finds (to_unix (db.now later)) row later held live),
      λ over.
          after_find_session_row_gone _
            (table.expires (to_unix (db.now later)) row later held over),
    )

    -- Where the queries keep their promises, a session that was created has a row in the table, and
    -- expires at the start of the second of the expiry that was asked for. While the table holds the
    -- row, a lookup by its hash returns that same session before that second, and
    -- ErrSessionNotFound from then on.
    pub sql_find_session-create :
        (params : CreateSessionParams) (s : Session) (w after : W)
        → sql_create_session db dialect params w ≡ (ok s, after)
        → (row : SessionRow) × Holds row after
          × (s.expires_at ≡ from_unix (to_unix params.expires_at))
          × ((later : W)
              → Holds row later
              → (to_unix (db.now later) <ℤ to_unix params.expires_at
                  → (sql_find_session_by_token_hash db dialect params.token_hash later).0 ≡ ok s)
                × (to_unix params.expires_at ≤ℤ to_unix (db.now later)
                    → (sql_find_session_by_token_hash db dialect params.token_hash later).0
                      ≡ err (sentinel session_not_found)))
    unfolding sql_create_session scan_session
    sql_find_session-create params s w after h =
        let made = after_create_session_row_ok _ s after h in
        let written =
          table.returns params.token_hash params.user_id (to_unix params.expires_at)
            (to_unix (db.now w)) made.0 w after made.1 in
        let hash : made.0.token_hash ≡ params.token_hash = ap (λ row. row.token_hash) written.1 in
        let expiry : made.0.expires_at_unix ≡ to_unix params.expires_at =
          ap (λ row. row.expires_at_unix) written.1 in
        (
          made.0,
          written.0,
          sym (ap (λ r. r.expires_at) made.2) ∙ ap from_unix expiry,
          λ later held.
              let found = find_held made.0 later held in
              (
                λ live.
                    ap (λ k. (sql_find_session_by_token_hash db dialect k later).0) (sym hash)
                    ∙ found.0 (subst (λ e. to_unix (db.now later) <ℤ e) (sym expiry) live)
                    ∙ ap ok made.2,
                λ over.
                    ap (λ k. (sql_find_session_by_token_hash db dialect k later).0) (sym hash)
                    ∙ found.1 (subst (λ e. e ≤ℤ to_unix (db.now later)) (sym expiry) over),
              ),
        )

  exec_error-none :
      (what : String) (p : Option GoError × W)
      → (exec_error what p).0 ≡ none
      → (p.0 ≡ none) × ((exec_error what p).1 ≡ p.1)
  unfolding exec_error
  exec_error-none what (none, w) h = (refl, refl)
  exec_error-none what (some e, w) h = absurd (cc h)

  -- A session that was deleted without an error is not found right after it.
  pub sql_find_session-delete :
      (hash : Str) (w : W)
      → IsDeleting db dialect
      → (sql_delete_session db dialect hash w).0 ≡ none
      → (sql_find_session_by_token_hash db dialect hash (sql_delete_session db dialect hash w).1).0
        ≡ err (sentinel session_not_found)
  unfolding sql_delete_session sql_find_session_by_token_hash
  sql_find_session-delete hash w deleting gone =
      let done = exec_error-none "delete session" _ gone in
      after_find_session_row_gone _ (
        subst
          (λ u.
            (db.query_session (find_session_by_token_hash_sql dialect)
              (text hash ∷ integer (to_unix (db.now u)) ∷ []) u).0
            ≡ err (sentinel no_rows))
          (sym done.1) (deleting.deletes hash _ w done.0))
