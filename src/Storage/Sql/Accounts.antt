-- ===== src/Storage/Sql/Accounts.antt =====
-- Users that sqlStore of internal/storage/storage.go writes and reads back, for the accounts of
-- internal/auth/auth.go.
pub mod Taken
mod Tests
use toyotaview.Common.{
  String, ℤ, ℕ, true, ◌||◌, Option, none, some, [], ◌∷◌, Str, str, contains_str, GoError, Result,
  ok, err, ◌≡◌, refl, sym, ap, subst, ◌∙◌,
}
use toyotaview.Common.Text.{to_lower}
use toyotaview.Auth.Types.{User, CreateUserParams, CreateSessionParams, Library}
use toyotaview.Auth.Accounts.{Knows, IsAccounts}
use toyotaview.Storage.Queries.{
  SqlDialect, create_user_sql, find_user_by_username_sql, create_session_sql,
  delete_expired_sessions_sql,
}
use toyotaview.Storage.Sql.{
  text, integer, UserRow, SessionRow, Database, scan_user, after_create_row, sql_create_user,
  after_find_user_row, sql_find_user_by_username, sql_store, exec_error, after_create_session_row,
  sql_create_session, sql_delete_expired_sessions,
}

module _ {W : Type 0} (lib : Library W) (db : Database W) (dialect : SqlDialect) where
  -- The row of the table of users with a name.
  abbrev pub HasRow : Str → UserRow → W → Type 0
  HasRow name row w =
      (db.query_user (find_user_by_username_sql dialect) (text name ∷ []) w).0 ≡ ok row

  -- What the queries on the table of users promise: an insertion returns the row that it wrote, which a
  -- selection finds from then on, whatever happens to sessions and random bytes; and an insertion under
  -- a name that the table has fails with an error whose text says so. And a password matches the hash
  -- that bcrypt made of it.
  pub record IsUserTable : Type 0 where
    pub returns :
        (name hash : Str) (created : ℤ) (row : UserRow) (w after : W)
        → db.query_user (create_user_sql dialect) (text name ∷ text hash ∷ integer created ∷ []) w
          ≡ (ok row, after)
        → row.password_hash ≡ hash
    pub finds :
        (name hash : Str) (created : ℤ) (row : UserRow) (w after : W)
        → db.query_user (create_user_sql dialect) (text name ∷ text hash ∷ integer created ∷ []) w
          ≡ (ok row, after)
        → HasRow name row after
    pub conflicts :
        (name hash : Str) (created : ℤ) (row : UserRow) (w : W)
        → HasRow name row w
        → (e : GoError) × ((db.query_user
              (create_user_sql dialect)
              (text name ∷ text hash ∷ integer created ∷ [])
              w).0
            ≡ err e)
          × ((contains_str (to_lower db.lower_unicode (db.error_text e)) (str "unique")
                || contains_str (to_lower db.lower_unicode (db.error_text e)) (str "duplicate key"))
              ≡ true)
    pub stays_expired :
        (name : Str) (row : UserRow) (moment : ℤ) (w : W)
        → HasRow name row w
        → HasRow name row (db.exec (delete_expired_sessions_sql dialect) (integer moment ∷ []) w).1
    pub stays_opened :
        (name : Str) (row : UserRow) (hash : Str) (user expires created : ℤ) (w : W)
        → HasRow name row w
        → HasRow name row
            (db.query_session
              (create_session_sql dialect)
              (text hash ∷ integer user ∷ integer expires ∷ integer created ∷ [])
              w).1
    pub stays_drawn :
        (name : Str) (row : UserRow) (n : ℕ) (w : W)
        → HasRow name row w
        → HasRow name row (lib.random_bytes n w).1
    pub stays_hashed :
        (name : Str) (row : UserRow) (password : Str) (w : W)
        → HasRow name row w
        → HasRow name row (lib.generate_from_password password w).1
    pub matches :
        (password hash : Str) (before after : W)
        → lib.generate_from_password password before ≡ (ok hash, after)
        → lib.compare_hash_and_password hash password ≡ none

  row_scanned :
      (p : Result UserRow × W) (user : User)
      → (after_find_user_row db dialect p).0 ≡ ok user
      → (row : UserRow) × (p.0 ≡ ok row) × (scan_user row ≡ user)
  unfolding after_find_user_row
  row_scanned (ok row, w) user h = (row, refl, cc h)
  row_scanned (err e, w) user h = absurd (cc h)

  user_scanned :
      (p : Result UserRow × W) (row : UserRow)
      → p.0 ≡ ok row
      → (after_find_user_row db dialect p).0 ≡ ok (scan_user row)
  unfolding after_find_user_row
  user_scanned (ok q, w) row h = let same : q ≡ row = cc h in ap (λ r. ok (scan_user r)) same
  user_scanned (err e, w) row h = absurd (cc h)

  -- sqlStore knows a user exactly where the table has a row that scans to it.
  pub row_of :
      (name : Str) (user : User) (w : W)
      → Knows (sql_store db dialect) name user w
      → (row : UserRow) × HasRow name row w × (scan_user row ≡ user)
  unfolding sql_store sql_find_user_by_username
  row_of name user w known = row_scanned _ user known

  known_of :
      (name : Str) (row : UserRow) (user : User) (w : W)
      → scan_user row ≡ user
      → HasRow name row w
      → Knows (sql_store db dialect) name user w
  unfolding sql_store sql_find_user_by_username
  known_of name row user w same has = user_scanned _ row has ∙ ap ok same

  -- What keeps the rows keeps the users.
  pub Knows-kept :
      (name : Str) (user : User) (w after : W)
      → ((row : UserRow) → HasRow name row w → HasRow name row after)
      → Knows (sql_store db dialect) name user w
      → Knows (sql_store db dialect) name user after
  Knows-kept name user w after kept known =
      let (row, has, same) = row_of name user w known in
      known_of name row user after same (kept row has)

  world-exec_error : (what : String) (p : Option GoError × W) → (exec_error what p).1 ≡ p.1
  unfolding exec_error
  world-exec_error what (none, w) = refl
  world-exec_error what (some e, w) = refl

  world-after_create_session_row :
      (p : Result SessionRow × W) → (after_create_session_row db dialect p).1 ≡ p.1
  unfolding after_create_session_row
  world-after_create_session_row (ok row, w) = refl
  world-after_create_session_row (err e, w) = refl

  module _ (table : IsUserTable) where
    created_row :
        (name hash : Str) (created : ℤ) (user : User) (w after : W) (p : Result UserRow × W)
        → db.query_user (create_user_sql dialect) (text name ∷ text hash ∷ integer created ∷ []) w
          ≡ p
        → after_create_row db dialect p ≡ (ok user, after)
        → Knows (sql_store db dialect) name user after × (user.password_hash ≡ hash)
    unfolding after_create_row scan_user
    created_row name hash created user w after (ok row, w') asked h =
        let same : scan_user row ≡ user = cc (ap (λ q. q.0) h) in
        let later : w' ≡ after = ap (λ q. q.1) h in
        (
          known_of name row user after same
              (subst (HasRow name row) later (table.finds name hash created row w w' asked)),
          ap (λ u. u.password_hash) (sym same) ∙ table.returns name hash created row w w' asked,
        )
    created_row name hash created user w after (err e, w') asked h = absurd (cc (ap (λ q. q.0) h))

    sql_create_user-known :
        (params : CreateUserParams) (user : User) (before after : W)
        → (sql_store db dialect).create_user params before ≡ (ok user, after)
        → Knows (sql_store db dialect) params.username user after
          × (user.password_hash ≡ params.password_hash)
    unfolding sql_store sql_create_user
    sql_create_user-known params user before after h =
        created_row params.username params.password_hash _ user before after _ refl h

    world-expired :
        (name : Str) (user : User) (w : W)
        → Knows (sql_store db dialect) name user w
        → Knows
            (sql_store db dialect)
            name
            user
            ((sql_store db dialect).delete_expired_sessions w).1
    unfolding sql_store sql_delete_expired_sessions
    world-expired name user w known =
        Knows-kept name user w _
          (λ row has.
            subst (HasRow name row) (sym (world-exec_error "delete expired sessions" _))
              (table.stays_expired name row _ w has))
          known

    world-opened :
        (name : Str) (user : User) (params : CreateSessionParams) (w : W)
        → Knows (sql_store db dialect) name user w
        → Knows (sql_store db dialect) name user ((sql_store db dialect).create_session params w).1
    unfolding sql_store sql_create_session
    world-opened name user params w known =
        Knows-kept name user w _
          (λ row has.
            subst (HasRow name row) (sym (world-after_create_session_row _))
              (table.stays_opened name row _ _ _ _ w has))
          known

    -- Where the queries on the users and bcrypt keep their promises, sqlStore keeps those that the
    -- accounts rely on: a created user is found under its name with its hash, and stays there while
    -- sessions are opened and expire and random bytes are drawn.
    pub sql_store-IsAccounts : IsAccounts lib (sql_store db dialect)
    sql_store-IsAccounts = record {
      finds_created = sql_create_user-known;
      stays_expired = world-expired;
      stays_opened = world-opened;
      stays_drawn = λ name user n w known.
          Knows-kept name user w _ (λ row has. table.stays_drawn name row n w has) known;
      matches = table.matches;
    }
