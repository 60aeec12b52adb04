-- ===== src/Auth/Accounts/Tests.antt =====
-- An account in a storage that is a map of users, and the login after its signup.
use toyotaview.Common.{
  replicate, pos, Option, none, some, [], Str, str, str_eq, str_eq_refl, Map, lookup, insert,
  lookup-insert, new_error, sentinel, ◌+ℤ◌, session_not_found, user_not_found, Result, ok, err,
  seconds, if◌then◌else◌, ◌≡◌, refl, sym, subst, ap, ◌∙◌,
}
use toyotaview.Common.Text.{trim_space, skip_space, start_width, end_width, to_lower, lower_byte}
use toyotaview.Auth.Types.{
  User, CreateUserParams, Session, CreateSessionParams, Store, Library, SessionResult,
}
use toyotaview.Auth.Service.{
  signup, login, token_hash, validate_username, validate_password, normalize_username, after_hash,
  after_create_user, create_session, with_token, open_session, finish_session,
}
use toyotaview.Auth.Accounts.{IsAccounts, login-signup}

abbrev registered : CreateUserParams → User
registered params = record {
  id = pos 7;
  username = params.username;
  password_hash = params.password_hash;
  created_at = pos 1;
}

abbrev made : CreateSessionParams → Session
made params = record {
  token_hash = params.token_hash;
  user_id = params.user_id;
  expires_at = params.expires_at;
  created_at = pos 1;
}

abbrev found_or : Option User → Result User
found_or none = err (sentinel user_not_found)
found_or (some user) = ok user

abbrev users : Store (Map User)
users = record {
  create_user = λ params w. (ok (registered params), insert params.username (registered params) w);
  find_user_by_username = λ name w. (found_or (lookup name w), w);
  create_session = λ params w. (ok (made params), w);
  find_session_by_token_hash = λ hash w. (err (sentinel session_not_found), w);
  delete_session = λ hash w. (none, w);
  delete_expired_sessions = λ w. (none, w);
}

-- A hash that hides nothing.
abbrev library : Library (Map User)
library = record {
  generate_from_password = λ password w. (ok password, w);
  compare_hash_and_password =
      λ hash password. if str_eq hash password then none else some (new_error "no match");
  random_bytes = λ n w. (ok (replicate n b'x'), w);
  sha256 = λ s. s;
  hex_encode = λ s. s;
  base64_encode = λ s. str "eA";
  now = λ w. pos 100;
  lower_unicode = λ s. s;
}

abbrev hash_or : Str → Result Str → Str
hash_or fallback (ok hash) = hash
hash_or fallback (err e) = fallback

abbrev user_or : User → Result User → User
user_or fallback (ok user) = user
user_or fallback (err e) = fallback

users-IsAccounts : IsAccounts library users
users-IsAccounts = record {
  finds_created = λ params user before after e. (
    subst (λ p. found_or (lookup params.username p.1) ≡ p.0) e
        (ap found_or (
          lookup-insert params.username params.username (registered params) before
          ∙ ap (λ b. if b then some (registered params) else lookup params.username before)
              (str_eq_refl params.username))),
    sym (ap (λ p. (user_or (registered params) p.0).password_hash) e),
  );
  stays_expired = λ name user w known. known;
  stays_opened = λ name user params w known. known;
  stays_drawn = λ name user n w known. known;
  matches = λ password hash before after e.
      let same : password ≡ hash = ap (λ p. hash_or password p.0) e in
      rw (same, str_eq_refl hash) refl;
}

abbrev alice : User
alice = record {
  id = pos 7;
  username = str "alice";
  password_hash = str "secret";
  created_at = pos 1;
}

abbrev opened : SessionResult
opened = record {
  token = str "eA";
  user = alice;
  session = record {
    token_hash = str "eA";
    user_id = pos 7;
    expires_at = pos 60_000_000_100;
    created_at = pos 1;
  };
}

abbrev with_alice : Map User
with_alice = insert (str "alice") alice []

signup-opened :
    signup library users (seconds 60) (str " Alice") (str "secret") [] ≡ (ok opened, with_alice)
unfolding signup after_hash after_create_user validate_username validate_password normalize_username
    create_session with_token open_session finish_session token_hash to_lower lower_byte trim_space
    skip_space start_width end_width ◌+ℤ◌
signup-opened = refl

same_name : normalize_username library (str "ALICE") ≡ normalize_username library (str " Alice")
unfolding normalize_username to_lower lower_byte trim_space skip_space start_width end_width
same_name = refl

login-signup_example :
    login library users (seconds 60) (str "ALICE") (str "secret") with_alice
    ≡ create_session library users
        (seconds 60)
        alice
        (users.find_user_by_username (normalize_username library (str " Alice")) with_alice).1
login-signup_example =
    login-signup library users (seconds 60) users-IsAccounts (str " Alice") (str "ALICE")
      (str "secret") [] with_alice opened signup-opened same_name
