-- ===== src/Auth/Tests.antt =====
-- The accounts over a storage that is a map of sessions, and the theorems at it.
use toyotaview.Common.{
  length, replicate, length-replicate, sym, pos, Option, none, some, [], ◌∷◌, Str, str, str_eq,
  str_eq_refl, Map, lookup, insert, lookup-insert, new_error, sentinel, ◌+ℤ◌, session_not_found,
  Result, ok, err, seconds, if◌then◌else◌, ◌≡◌, refl, subst, arith, ap, ◌∙◌,
}
use toyotaview.Common.Text.{trim_space, skip_space, start_width, end_width, to_lower}
use toyotaview.Auth.Types.{User, Session, CreateSessionParams, Store, Library, SessionResult}
use toyotaview.Auth.Service.{
  login, token_hash, validate_username, validate_password, normalize_username, after_find_user,
  create_session, with_token, open_session, finish_session,
}
use toyotaview.Auth.Laws.{IsOpened, login_granted}
use toyotaview.Auth.Sessions.{IsFinding, IsForgetting, IsEncoding}

abbrev Sessions : Type 0
Sessions = Map Session

abbrev alice : User
alice = record { id = pos 7; username = str "alice"; password_hash = str "h"; created_at = pos 1 }

abbrev made : CreateSessionParams → Session
made params = record {
  token_hash = params.token_hash;
  user_id = params.user_id;
  expires_at = params.expires_at;
  created_at = pos 1;
}

remove : Str → Sessions → Sessions
remove k [] = []
remove k ((j, s) ∷ m) = let rest = remove k m in if str_eq j k then rest else (j, s) ∷ rest

abbrev found_or : Option Session → Result Session
found_or none = err (sentinel session_not_found)
found_or (some s) = ok s

abbrev demo_store : Store Sessions
demo_store = record {
  create_user = λ params w. (ok alice, w);
  find_user_by_username = λ name w. (ok alice, w);
  create_session = λ params w. (ok (made params), insert params.token_hash (made params) w);
  find_session_by_token_hash = λ hash w. (found_or (lookup hash w), w);
  delete_session = λ hash w. (none, remove hash w);
  delete_expired_sessions = λ w. (none, w);
}

abbrev demo_library : Library Sessions
demo_library = record {
  generate_from_password = λ password w. (ok (str "h"), w);
  compare_hash_and_password =
      λ hash password. if str_eq password (str "secret") then none else some (new_error "no match");
  random_bytes = λ n w. (ok (replicate n b'x'), w);
  sha256 = λ s. s;
  hex_encode = λ s. s;
  base64_encode = λ s. str "eA";
  now = λ w. pos 100;
  lower_unicode = λ s. s;
}

lookup-remove : (k : Str) (m : Sessions) → lookup k (remove k m) ≡ none
unfolding lookup remove
lookup-remove k [] = refl
lookup-remove k ((j, s) ∷ m) = ground (arith, lookup-remove k m)

demo_store-IsFinding : IsFinding demo_store (λ expiry w. Unit {0})
demo_store-IsFinding = record {
  finds_created = λ params session before after e live.
      subst (λ p. found_or (lookup params.token_hash p.1) ≡ p.0) e
        (ap found_or (
          lookup-insert params.token_hash params.token_hash (made params) before
          ∙ ap (λ b. if b then some (made params) else lookup params.token_hash before)
              (str_eq_refl params.token_hash)));
}

demo_store-IsForgetting : IsForgetting demo_store
demo_store-IsForgetting = record {
  forgets_deleted = λ hash before gone. ap found_or (lookup-remove hash before);
}

bytes_or : Str → Result Str → Str
bytes_or fallback (ok bytes) = bytes
bytes_or fallback (err e) = fallback

demo_library-IsEncoding : IsEncoding demo_library
unfolding trim_space skip_space start_width end_width bytes_or
demo_library-IsEncoding = record {
  fills = λ n w bytes e. ap length (sym (ap (bytes_or bytes) e)) ∙ length-replicate n b'x';
  plain = λ bytes. refl;
  shown = λ bytes h. refl;
}

abbrev logged_in : Result SessionResult × Sessions
logged_in = login demo_library demo_store (seconds 60) (str " Alice") (str "secret") []

abbrev opened : SessionResult
opened = record {
  token = str "eA";
  user = alice;
  session = record {
    token_hash = str "eA";
    user_id = pos 7;
    expires_at = pos 60_000_000_100;
    created_at = pos 1;
  };
}

logged_in-opened : logged_in ≡ (ok opened, logged_in.1)
unfolding login validate_username validate_password normalize_username after_find_user
    create_session with_token open_session finish_session token_hash to_lower trim_space skip_space
    start_width end_width str_eq ◌+ℤ◌
logged_in-opened = refl

login_granted_example :
    (user : User) × ((demo_store.find_user_by_username
        (normalize_username demo_library (str " Alice"))
        []).0
      ≡ ok user)
    × (demo_library.compare_hash_and_password user.password_hash (str "secret") ≡ none)
    × IsOpened demo_library demo_store (seconds 60) user opened logged_in.1
login_granted_example =
    login_granted demo_library demo_store (seconds 60) (str " Alice") (str "secret") [] logged_in.1
      opened logged_in-opened
