-- ===== src/Storage/Sql/Accounts/Taken.antt =====
-- A name that is taken, for sqlStore of internal/storage/storage.go and the accounts over it.
use toyotaview.Common.{
  true, ◌||◌, none, Str, str, contains_str, GoError, sentinel, duplicate_user, username_taken,
  is_error, Sentinel-refl, Result, ok, err, Duration, ◌≡◌, refl, sym, ap, subst, ◌∙◌, arith,
}
use toyotaview.Common.Text.{to_lower}
use toyotaview.Auth.Types.{User, CreateUserParams, Library, SessionResult}
use toyotaview.Auth.Service.{
  normalize_username, validate_username, validate_password, signup, after_hash, after_create_user,
}
use toyotaview.Auth.Accounts.{Knows, signed_up}
use toyotaview.Storage.Queries.{SqlDialect}
use toyotaview.Storage.Sql.{
  UserRow, Database, is_unique_violation, after_create_row, sql_create_user, sql_store,
}
use toyotaview.Storage.Sql.Accounts.{IsUserTable, row_of, Knows-kept, sql_store-IsAccounts}

module _ {W : Type 0} (lib : Library W) (db : Database W) (dialect : SqlDialect)
    (table : IsUserTable lib db dialect) where
  violation :
      (e : GoError)
      → (contains_str (to_lower db.lower_unicode (db.error_text e)) (str "unique")
          || contains_str (to_lower db.lower_unicode (db.error_text e)) (str "duplicate key"))
        ≡ true
      → is_unique_violation db dialect e ≡ true
  unfolding is_unique_violation
  violation e told = ground arith

  refused_row :
      (e : GoError) (p : Result UserRow × W)
      → is_unique_violation db dialect e ≡ true
      → p.0 ≡ err e
      → (after_create_row db dialect p).0 ≡ err (sentinel duplicate_user)
  unfolding after_create_row
  refused_row e (ok row, w) found h = absurd (cc h)
  refused_row e (err d, w) found h =
      let same : d ≡ e = cc h in
      let seen : is_unique_violation db dialect d ≡ true =
        ap (is_unique_violation db dialect) same ∙ found in
      rw seen refl

  -- A name that the table has is refused by CreateUser with ErrDuplicateUser.
  sql_create_user-taken :
      (params : CreateUserParams) (user : User) (w : W)
      → Knows (sql_store db dialect) params.username user w
      → ((sql_store db dialect).create_user params w).0 ≡ err (sentinel duplicate_user)
  unfolding sql_store sql_create_user
  sql_create_user-taken params user w known =
      let (row, has, same) = row_of lib db dialect params.username user w known in
      let (e, failed, told) = table.conflicts params.username params.password_hash _ row w has in
      refused_row e _ (violation e told) failed

  module _ (session_ttl : Duration) where
    after_create_user-taken :
        (p : Result User × W)
        → p.0 ≡ err (sentinel duplicate_user)
        → (after_create_user lib (sql_store db dialect) session_ttl p).0
          ≡ err (sentinel username_taken)
    unfolding after_create_user
    after_create_user-taken (ok user, w) h = absurd (cc h)
    after_create_user-taken (err e, w) h =
        let same : e ≡ sentinel duplicate_user = cc h in
        let known : is_error duplicate_user e ≡ true =
          ap (is_error duplicate_user) same ∙ Sentinel-refl duplicate_user in
        rw known refl

    after_hash-taken :
        (name hash : Str) (user : User) (p : Result Str × W)
        → p.0 ≡ ok hash
        → Knows (sql_store db dialect) name user p.1
        → (after_hash lib (sql_store db dialect) session_ttl name p).0
          ≡ err (sentinel username_taken)
    unfolding after_hash
    after_hash-taken name hash user (ok h, w) made known =
        after_create_user-taken _ (sql_create_user-taken _ user w known)
    after_hash-taken name hash user (err e, w) made known = absurd (cc made)

    signup_checked :
        (username password : Str) (w : W)
        → validate_username (normalize_username lib username) ≡ none
        → validate_password password ≡ none
        → signup lib (sql_store db dialect) session_ttl username password w
          ≡ after_hash lib
              (sql_store db dialect)
              session_ttl
              (normalize_username lib username)
              (lib.generate_from_password password w)
    unfolding signup
    signup_checked username password w good fine = rw (good, fine, signup) refl

    -- Where the queries on the users and bcrypt keep their promises: right after a signup over
    -- sqlStore that gave a session, a signup under any spelling of the name with the same normal
    -- form, with a password that is valid and that bcrypt hashes, fails with ErrUsernameTaken.
    pub signup-sql_signup :
        (username spelling password other hash : Str) (w after : W) (r : SessionResult)
        → signup lib (sql_store db dialect) session_ttl username password w ≡ (ok r, after)
        → normalize_username lib spelling ≡ normalize_username lib username
        → validate_password other ≡ none
        → (lib.generate_from_password other after).0 ≡ ok hash
        → (signup lib (sql_store db dialect) session_ttl spelling other after).0
          ≡ err (sentinel username_taken)
    signup-sql_signup username spelling password other hash w after r made same fine hashed =
        let (good, valid, known, fits) =
          signed_up lib (sql_store db dialect) session_ttl
            (sql_store-IsAccounts lib db dialect table) username password w after r made in
        let later : Knows (sql_store db dialect) (normalize_username lib spelling) r.user
            (lib.generate_from_password other after).1 =
          Knows-kept lib db dialect _ r.user after _
            (λ row has. table.stays_hashed _ row other after has)
            (subst (λ name. Knows (sql_store db dialect) name r.user after) (sym same) known) in
        ap (λ out. out.0)
          (signup_checked spelling other after (ap validate_username same ∙ good) fine)
        ∙ after_hash-taken _ hash r.user (lib.generate_from_password other after) hashed later
