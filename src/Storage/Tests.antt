-- ===== src/Storage/Tests.antt =====
-- The storage on small inputs, and its theorems there.
use toyotaview.Common.{
  Option, Bool-cases, GoError, inl, inr, ℤ, pos, ltb_ℤ, none, List, [], ◌∷◌, Str, str, sentinel,
  no_rows, Result, ok, err, ◌≡◌, refl, ◌<ℤ◌, ◌≤ℤ◌, if◌then◌else◌, arith,
}
use toyotaview.Common.{str_eq, str_eq_refl, sym, ap, ◌∙◌, ◌&&◌, ◌+ℤ◌, ◌-ℤ◌}
use toyotaview.Common.{length, replicate, length-replicate, seconds}
use toyotaview.Common.Text.{trim_space, skip_space, start_width, end_width, to_lower}
use toyotaview.Auth.Types.{Session, CreateSessionParams, Library, SessionResult}
use toyotaview.Auth.Service.{
  login, token_hash, validate_username, validate_password, normalize_username, after_find_user,
  create_session, with_token, open_session, finish_session,
}
use toyotaview.Auth.Sessions.{IsEncoding, IsFinding, IsForgetting}
use toyotaview.Storage.Sql.Sessions.{
  IsAhead, Lives, sql_store-IsFinding, authenticate_token-sql_login,
}
use toyotaview.Storage.Unix.{to_unix, from_unix, IsWithinSecond}
use toyotaview.Storage.Queries.{sqlite}
use toyotaview.Storage.Sql.{
  Argument, text, integer, UserRow, scan_user, SessionRow, sql_store, sql_find_user_by_username,
  sql_delete_expired_sessions, Database, sql_create_session,
}
use toyotaview.Storage.Sql.Laws.{IsTable, IsDeleting}

-- The table of sessions is the list of the rows that were inserted, of which the last is looked at.
abbrev found_at : Str → ℤ → List SessionRow → Result SessionRow
found_at hash moment [] = err (sentinel no_rows)
found_at hash moment (row ∷ rows) =
    if str_eq row.token_hash hash && ltb_ℤ moment row.expires_at_unix
    then ok row
    else err (sentinel no_rows)

abbrev demo_query : List Argument → List SessionRow → Result SessionRow × List SessionRow
demo_query (text hash ∷ integer user ∷ integer expires ∷ integer created ∷ []) rows =
    let row : SessionRow = record {
      token_hash = hash;
      user_id = user;
      expires_at_unix = expires;
      created_at_unix = created;
    } in
    (ok row, row ∷ rows)
demo_query (text hash ∷ integer moment ∷ []) rows = (found_at hash moment rows, rows)
demo_query _ rows = (err (sentinel no_rows), rows)

without : Str → List SessionRow → List SessionRow
without hash [] = []
without hash (row ∷ rows) =
    let rest = without hash rows in if str_eq row.token_hash hash then rest else row ∷ rest

abbrev demo_exec : List Argument → List SessionRow → Option GoError × List SessionRow
demo_exec (text hash ∷ []) rows = (none, without hash rows)
demo_exec _ rows = (none, rows)

abbrev alice_row : UserRow
alice_row = record {
  id = pos 7;
  username = str "alice";
  password_hash = str "h";
  created_at_unix = pos 1;
}

abbrev demo_database : Database (List SessionRow)
demo_database = record {
  query_user = λ query arguments rows. (ok alice_row, rows);
  query_session = λ query arguments rows. demo_query arguments rows;
  exec = λ query arguments rows. demo_exec arguments rows;
  now = λ rows. pos 62_135_596_800_000_000_000;
  error_text = λ e. [];
  lower_unicode = λ s. s;
}

row_or : SessionRow → Result SessionRow → SessionRow
row_or row (ok found) = found
row_or row (err e) = row

found_at_live :
    (row : SessionRow) (moment : ℤ) (rows : List SessionRow)
    → moment <ℤ row.expires_at_unix
    → found_at row.token_hash moment (row ∷ rows) ≡ ok row
found_at_live row moment rows live = ground (arith, live, str_eq_refl row.token_hash)

found_at_over :
    (row : SessionRow) (moment : ℤ) (rows : List SessionRow)
    → row.expires_at_unix ≤ℤ moment
    → found_at row.token_hash moment (row ∷ rows) ≡ err (sentinel no_rows)
found_at_over row moment rows over = ground (arith, over, str_eq_refl row.token_hash)

-- The row that was inserted last.
abbrev IsLast : SessionRow → List SessionRow → Type 0
IsLast row rows = (rest : List SessionRow) × (rows ≡ row ∷ rest)

demo_database-IsTable : IsTable demo_database sqlite IsLast
unfolding row_or
demo_database-IsTable = record {
  returns = λ hash user expires created row w after e.
      let new : SessionRow = record {
        token_hash = hash;
        user_id = user;
        expires_at_unix = expires;
        created_at_unix = created;
      } in
      let same : new ≡ row = ap (λ q. row_or new q.0) e in
      ((w, ap (λ q. q.1) (sym e) ∙ ap (λ r. r ∷ w) same), sym same);
  finds = λ moment row w held live.
      ap (λ rows. found_at row.token_hash moment rows) (held.1)
      ∙ found_at_live row moment held.0 live;
  expires = λ moment row w held over.
      ap (λ rows. found_at row.token_hash moment rows) (held.1)
      ∙ found_at_over row moment held.0 over;
}

found_at-without :
    (hash : Str) (moment : ℤ) (rows : List SessionRow)
    → found_at hash moment (without hash rows) ≡ err (sentinel no_rows)
unfolding without
found_at-without hash moment [] = refl
found_at-without hash moment (row ∷ rows) = elim (Bool-cases (str_eq row.token_hash hash)) [
  | inl same ↦ rw (without, same) (found_at-without hash moment rows)
  | inr other ↦ rw (without, other) (rw other refl)
]

demo_database-IsDeleting : IsDeleting demo_database sqlite
demo_database-IsDeleting = record { deletes = λ hash moment w gone. found_at-without hash moment w }

abbrev demo_params : CreateSessionParams
demo_params = record {
  token_hash = str "h";
  user_id = pos 7;
  expires_at = pos 62_135_596_802_500_000_000;
}

abbrev demo_created : Result Session × List SessionRow
demo_created = sql_create_session demo_database sqlite demo_params []

abbrev demo_session : Session
demo_session = record {
  token_hash = str "h";
  user_id = pos 7;
  expires_at = pos 62_135_596_802_000_000_000;
  created_at = pos 62_135_596_800_000_000_000;
}

sql_create_session-demo :
    sql_create_session demo_database sqlite demo_params [] ≡ (ok demo_session, demo_created.1)
unfolding sql_create_session from_unix ◌+ℤ◌ to_unix ◌-ℤ◌
sql_create_session-demo = refl

abbrev demo_accounts : Library (List SessionRow)
demo_accounts = record {
  generate_from_password = λ password w. (ok (str "h"), w);
  compare_hash_and_password = λ hash password. none;
  random_bytes = λ n w. (ok (replicate n b'x'), w);
  sha256 = λ s. s;
  hex_encode = λ s. s;
  base64_encode = λ s. str "eA";
  now = λ w. pos 62_135_596_800_500_000_000;
  lower_unicode = λ s. s;
}

bytes_or : Str → Result Str → Str
bytes_or fallback (ok bytes) = bytes
bytes_or fallback (err e) = fallback

demo_accounts-IsEncoding : IsEncoding demo_accounts
unfolding trim_space skip_space start_width end_width bytes_or
demo_accounts-IsEncoding = record {
  fills = λ n w bytes e. ap length (sym (ap (bytes_or bytes) e)) ∙ length-replicate n b'x';
  plain = λ bytes. refl;
  shown = λ bytes h. refl;
}

abbrev logged_in : Result SessionResult × List SessionRow
logged_in =
    login demo_accounts (sql_store demo_database sqlite) (seconds 60) (str "alice") (str "secret")
      []

abbrev opened : SessionResult
opened = record {
  token = str "eA";
  user = scan_user alice_row;
  session = record {
    token_hash = str "eA";
    user_id = pos 7;
    expires_at = pos 62_135_596_860_000_000_000;
    created_at = pos 62_135_596_800_000_000_000;
  };
}

logged_in-opened : logged_in ≡ (ok opened, logged_in.1)
unfolding login validate_username validate_password normalize_username after_find_user
    create_session with_token open_session finish_session token_hash to_lower trim_space skip_space
    start_width end_width str_eq ◌+ℤ◌ ◌-ℤ◌ sql_store sql_find_user_by_username sql_create_session
    sql_delete_expired_sessions scan_user to_unix from_unix
logged_in-opened = refl

authenticate_token-sql_login_example :
    (made : List SessionRow) × (row : SessionRow) × IsLast row logged_in.1
    × IsWithinSecond opened.session.expires_at (demo_accounts.now made +ℤ seconds 60)
    × Lives demo_database sqlite IsLast demo_accounts
        (seconds 60)
        opened
        row
        (demo_accounts.now made +ℤ seconds 60)
authenticate_token-sql_login_example =
    authenticate_token-sql_login demo_database sqlite IsLast demo_accounts (seconds 60)
      (str "alice") (str "secret") [] logged_in.1 opened demo_database-IsTable
      demo_accounts-IsEncoding logged_in-opened

sql_store-IsFinding_example :
    IsFinding (sql_store demo_database sqlite) (IsAhead demo_database sqlite IsLast)
    × IsForgetting (sql_store demo_database sqlite)
sql_store-IsFinding_example =
    sql_store-IsFinding demo_database sqlite IsLast demo_database-IsTable demo_database-IsDeleting
