-- ===== src/Storage/Sql/Accounts/Tests.antt =====
-- A table of users as a map, and two signups over it.
use toyotaview.Common.{
  ℤ, pos, replicate, ◌||◌, true, Option, none, some, List, [], ◌∷◌, Str, str, str_eq, str_eq_refl,
  Map, lookup, insert, lookup-insert, contains_str, GoError, new_error, sentinel, no_rows,
  username_taken, Result, ok, err, seconds, if◌then◌else◌, ◌≡◌, refl, sym, ap, ◌∙◌, ◌+ℤ◌, ◌-ℤ◌,
}
use toyotaview.Common.Text.{
  trim_space, skip_space, start_width, end_width, to_lower, lower_byte, is_ascii,
}
use toyotaview.Auth.Types.{Library, SessionResult}
use toyotaview.Auth.Service.{
  signup, token_hash, validate_username, validate_password, normalize_username, after_hash,
  after_create_user, create_session, with_token, open_session, finish_session,
}
use toyotaview.Auth.Accounts.{IsAccounts}
use toyotaview.Storage.Unix.{to_unix, from_unix}
use toyotaview.Storage.Queries.{sqlite}
use toyotaview.Storage.Sql.{
  Argument, text, integer, UserRow, SessionRow, Database, scan_user, scan_session, sql_store,
  sql_create_user, sql_create_session, sql_delete_expired_sessions,
}
use toyotaview.Storage.Sql.Accounts.{IsUserTable, sql_store-IsAccounts}
use toyotaview.Storage.Sql.Accounts.Taken.{signup-sql_signup}

abbrev Users : Type 0
Users = Map UserRow

abbrev row_for : Str → Str → ℤ → UserRow
row_for name hash created = record {
  id = pos 7;
  username = name;
  password_hash = hash;
  created_at_unix = created;
}

abbrev taken : GoError
taken = new_error "UNIQUE constraint failed: users.username"

abbrev found_or : Option UserRow → Result UserRow
found_or none = err (sentinel no_rows)
found_or (some row) = ok row

abbrev create_in : Option UserRow → Str → Str → ℤ → Users → Result UserRow × Users
create_in none name hash created w =
    (ok (row_for name hash created), insert name (row_for name hash created) w)
create_in (some row) name hash created w = (err taken, w)

-- An insertion has three arguments, and a selection has one.
abbrev user_query : List Argument → Users → Result UserRow × Users
user_query (text name ∷ text hash ∷ integer created ∷ []) w =
    create_in (lookup name w) name hash created w
user_query (text name ∷ []) w = (found_or (lookup name w), w)
user_query arguments w = (err (sentinel no_rows), w)

abbrev session_query : List Argument → Result SessionRow
session_query (text hash ∷ integer user ∷ integer expires ∷ integer created ∷ []) = ok (record {
  token_hash = hash;
  user_id = user;
  expires_at_unix = expires;
  created_at_unix = created;
})
session_query arguments = err (sentinel no_rows)

abbrev database : Database Users
database = record {
  query_user = λ query arguments w. user_query arguments w;
  query_session = λ query arguments w. (session_query arguments, w);
  exec = λ query arguments w. (none, w);
  now = λ w. pos 62_135_596_800_000_000_000;
  error_text = λ e. str "UNIQUE constraint failed: users.username";
  lower_unicode = λ s. s;
}

abbrev library : Library Users
library = record {
  generate_from_password = λ password w. (ok password, w);
  compare_hash_and_password =
      λ hash password. if str_eq hash password then none else some (new_error "no match");
  random_bytes = λ n w. (ok (replicate n b'x'), w);
  sha256 = λ s. s;
  hex_encode = λ s. s;
  base64_encode = λ s. str "eA";
  now = λ w. pos 62_135_596_800_000_000_000;
  lower_unicode = λ s. s;
}

abbrev row_or : UserRow → Result UserRow → UserRow
row_or fallback (ok row) = row
row_or fallback (err e) = fallback

abbrev hash_or : Str → Result Str → Str
hash_or fallback (ok hash) = hash
hash_or fallback (err e) = fallback

created_in :
    (o : Option UserRow) (name hash : Str) (created : ℤ) (row : UserRow) (w after : Users)
    → create_in o name hash created w ≡ (ok row, after)
    → (row_for name hash created ≡ row) × (lookup name after ≡ some (row_for name hash created))
created_in none name hash created row w after e = (
  ap (λ p. row_or (row_for name hash created) p.0) e,
  ap (λ p. lookup name p.1) (sym e)
      ∙ lookup-insert name name (row_for name hash created) w
      ∙ ap (λ b. if b then some (row_for name hash created) else lookup name w) (str_eq_refl name),
)
created_in (some q) name hash created row w after e = absurd (cc (ap (λ p. p.0) e))

refused_in :
    (o : Option UserRow) (name hash : Str) (created : ℤ) (row : UserRow) (w : Users)
    → found_or o ≡ ok row
    → (create_in o name hash created w).0 ≡ err taken
refused_in none name hash created row w e = absurd (cc e)
refused_in (some q) name hash created row w e = refl

told :
    (contains_str
        (to_lower (λ s. s) (str "UNIQUE constraint failed: users.username"))
        (str "unique")
      || contains_str
          (to_lower (λ s. s) (str "UNIQUE constraint failed: users.username"))
          (str "duplicate key"))
    ≡ true
unfolding to_lower lower_byte is_ascii contains_str
told = refl

database-IsUserTable : IsUserTable library database sqlite
database-IsUserTable = record {
  returns = λ name hash created row w after e.
      ap (λ q. q.password_hash)
        (sym (created_in (lookup name w) name hash created row w after e).0);
  finds = λ name hash created row w after e.
      let made = created_in (lookup name w) name hash created row w after e in
      ap found_or (made.1) ∙ ap ok made.0;
  conflicts = λ name hash created row w has.
      (taken, refused_in (lookup name w) name hash created row w has, told);
  stays_expired = λ name row moment w has. has;
  stays_opened = λ name row hash user expires created w has. has;
  stays_drawn = λ name row n w has. has;
  stays_hashed = λ name row password w has. has;
  matches = λ password hash before after e.
      let same : password ≡ hash = ap (λ p. hash_or password p.0) e in
      rw (same, str_eq_refl hash) refl;
}

sql_store-IsAccounts_example : IsAccounts library (sql_store database sqlite)
sql_store-IsAccounts_example = sql_store-IsAccounts library database sqlite database-IsUserTable

abbrev alice_row : UserRow
alice_row = row_for (str "alice") (str "secret") (pos 0)

abbrev signed : Result SessionResult × Users
signed = signup library (sql_store database sqlite) (seconds 60) (str " Alice") (str "secret") []

abbrev opened : SessionResult
opened = record {
  token = str "eA";
  user = scan_user alice_row;
  session = record {
    token_hash = str "eA";
    user_id = pos 7;
    expires_at = pos 62_135_596_860_000_000_000;
    created_at = pos 62_135_596_800_000_000_000;
  };
}

signed-opened : signed ≡ (ok opened, signed.1)
unfolding signup after_hash after_create_user validate_username validate_password normalize_username
    create_session with_token open_session finish_session token_hash to_lower lower_byte trim_space
    skip_space start_width end_width sql_store sql_create_user sql_create_session
    sql_delete_expired_sessions scan_user scan_session to_unix from_unix lookup ◌+ℤ◌ ◌-ℤ◌
signed-opened = refl

same_name : normalize_username library (str "ALICE") ≡ normalize_username library (str " Alice")
unfolding normalize_username to_lower lower_byte trim_space skip_space start_width end_width
same_name = refl

other_valid : validate_password (str "other") ≡ none
unfolding validate_password
other_valid = refl

signup-sql_signup_example :
    (signup library (sql_store database sqlite) (seconds 60) (str "ALICE") (str "other") signed.1).0
    ≡ err (sentinel username_taken)
signup-sql_signup_example =
    signup-sql_signup library database sqlite database-IsUserTable (seconds 60) (str " Alice")
      (str "ALICE") (str "secret") (str "other") (str "other") [] signed.1 opened signed-opened
      same_name other_valid refl
