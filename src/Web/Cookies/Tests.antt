-- ===== src/Web/Cookies/Tests.antt =====
-- A site whose storage holds one session, a login on it, and the next request.
use toyotaview.Common.{
  Time, ltb_ℤ, ◌<ℤ◌, arith, inl, Bool, ◌≢◌, pos, true, false, Option, none, some, [], ◌∷◌, Str, str,
  str_eq, length, replicate, length-replicate, new_error, sentinel, session_not_found, Result, ok,
  err, ◌≡◌, ◌⊎◌, refl, sym, ap, ◌∙◌, subst, seconds, ◌+ℤ◌, if◌then◌else◌,
}
use toyotaview.Common.Text.{
  trim_space, skip_space, start_width, end_width, to_lower, is_ascii, lower_byte,
}
use toyotaview.Smartcar.Api.{Api}
use toyotaview.Store.{new_memory_store}
use toyotaview.App.Types.{new_service}
use toyotaview.Auth.Types
use toyotaview.Auth.Types.{User, Session}
use toyotaview.Auth.Service.{
  validate_username, validate_password, normalize_username, token_hash, finish_session,
  open_session, with_token, create_session, after_find_user,
}
use toyotaview.Auth.Service
use toyotaview.Auth.Sessions.{IsFinding, IsForgetting, IsEncoding}
use toyotaview.Web.Guards.{Request, require_same_origin, same_origin}
use toyotaview.Web.Guards.Laws.{IsSameHost}
use toyotaview.Web.Response.{
  Site, Cookie, Exchange, error_written, write, in_world, redirect, set_session_cookie,
  session_cookie_of,
}
use toyotaview.Web.Routes.{
  Route, public, protected, post_login, post_logout, get_root, security_headers, routes, dispatch,
  serve, handle_public, handle_protected, finish_answer,
}
use toyotaview.Web.Handlers.{authenticate, login_handler, login_parsed, after_login, enter}
use toyotaview.Web.Cookies.{cookies, is_open, sent, sent-write_other}
use toyotaview.Web.Cookies.Laws.{Tracked, sent-routes}
use toyotaview.Web.Cookies.Session.{routes-login}
use toyotaview.Web.Cookies.Logout.{routes-logout}
use toyotaview.Web.Routes.Closed.{Turned}
use toyotaview.Web.Demo.{demo_request, demo_parse, demo_printer, demo_smartcar}

abbrev World : Type 0
World = Option Session

abbrev alice : User
alice = record { id = pos 7; username = str "alice"; password_hash = str "h"; created_at = pos 1 }

abbrev made : Types.CreateSessionParams → Session
made params = record {
  token_hash = params.token_hash;
  user_id = params.user_id;
  expires_at = params.expires_at;
  created_at = pos 1;
}

abbrev found_or : World → Result Session
found_or none = err (sentinel session_not_found)
found_or (some s) = if ltb_ℤ (pos 100) s.expires_at then ok s else err (sentinel session_not_found)

abbrev one_session : Types.Store World
one_session = record {
  create_user = λ params w. (ok alice, w);
  find_user_by_username = λ name w. (ok alice, w);
  create_session = λ params w. (ok (made params), some (made params));
  find_session_by_token_hash = λ hash w. (found_or w, w);
  delete_session = λ hash w. (none, none);
  delete_expired_sessions = λ w. (none, w);
}

abbrev accounts : Types.Library World
accounts = record {
  generate_from_password = λ password w. (ok (str "h"), w);
  compare_hash_and_password = λ hash password. none;
  random_bytes = λ n w. (ok (replicate n b'x'), w);
  sha256 = λ s. s;
  hex_encode = λ s. s;
  base64_encode = λ s. str "eA";
  now = λ w. pos 100;
  lower_unicode = λ s. s;
}

-- The clock of the storage stands at 100.
abbrev IsAfter100 : Time → World → Type 0
IsAfter100 expiry w = pos 100 <ℤ expiry

found_ahead : (s : Session) → pos 100 <ℤ s.expires_at → found_or (some s) ≡ ok s
found_ahead s ahead = ground (arith, ahead)

abbrev expiry_of : Session → Result Session → Time
expiry_of s (ok r) = r.expires_at
expiry_of s (err e) = s.expires_at

one_session-IsFinding : IsFinding one_session IsAfter100
one_session-IsFinding = record {
  finds_created = λ params session before after e live.
      ap (λ p. found_or p.1) (sym e)
      ∙ found_ahead (made params)
          (subst (λ t. pos 100 <ℤ t) (sym (ap (λ p. expiry_of session p.0) e)) live)
      ∙ ap (λ p. p.0) e;
}

one_session-IsForgetting : IsForgetting one_session
one_session-IsForgetting = record { forgets_deleted = λ hash before gone. refl }

bytes_or : Str → Result Str → Str
bytes_or fallback (ok bytes) = bytes
bytes_or fallback (err e) = fallback

accounts-IsEncoding : IsEncoding accounts
unfolding trim_space skip_space start_width end_width bytes_or
accounts-IsEncoding = record {
  fills = λ n w bytes e. ap length (sym (ap (bytes_or bytes) e)) ∙ length-replicate n b'x';
  plain = λ bytes. refl;
  shown = λ bytes h. refl;
}

abbrev down : Api World
down = record {
  list_connections = λ user w. (err (new_error "down"), w);
  get_vehicle = λ vehicle w. (err (new_error "down"), w);
  get_signal = λ user vehicle c w. (err (new_error "down"), w);
}

abbrev site : Site World
site = record {
  api = down;
  now = λ w. pos 100;
  service = new_service demo_smartcar;
  accounts = accounts;
  storage = one_session;
  session_ttl = seconds 60;
  secure_cookies = true;
  printer = demo_printer;
  execute = λ page. ok (str "<html>");
  write_body = λ bytes w. (none, w);
  is_abort_handler = λ e. false;
  path_escape = λ s. s;
  version = record { version = str "1"; commit = str "c"; date = str "d" };
}

-- The login page's POST route for a POST, and the dashboard for any other request.
abbrev matched : Request → Route
matched r = if str_eq r.method (str "POST") then public post_login else protected get_root

abbrev not_found : Request → Exchange World → Exchange World
not_found r x = write (error_written (str "404 page not found") 404) x

abbrev fresh : World → Exchange World
fresh w = record {
  app = record { world = w; store = new_memory_store; events = [] };
  writes = [];
  logs = [];
}

abbrev login_request : Request
login_request = record demo_request { session_cookie = none; form_value = λ name. str "alice" }

abbrev next_request : Request
next_request = record demo_request { method = str "GET"; session_cookie = some (str "eA") }

not_found_silent : (r : Request) (x : Exchange World) → sent (not_found r x) ≡ sent x
unfolding cookies
not_found_silent r x = sent-write_other (error_written (str "404 page not found") 404) x refl

abbrev expiry_or : Time → Option Time → Time
expiry_or t none = t
expiry_or t (some e) = e

is_post : Str → Bool
is_post m = str_eq m (str "POST")

abbrev entered : Exchange World
entered = routes site demo_parse matched not_found login_request (fresh none)

abbrev session_cookie : Cookie
session_cookie = record {
  value = str "eA";
  path = str "/";
  expires = some (pos 60_000_000_100);
  max_age = pos 0;
  http_only = true;
  same_site_lax = true;
  secure = true;
}

entered-cookie : sent entered ≡ session_cookie ∷ []
unfolding sent cookies routes finish_answer require_same_origin same_origin dispatch serve
    handle_public login_handler login_parsed after_login enter set_session_cookie session_cookie_of
    redirect write in_world security_headers Service.login validate_username validate_password
    normalize_username token_hash finish_session open_session with_token create_session
    after_find_user to_lower is_ascii lower_byte trim_space skip_space start_width end_width str_eq
    ◌+ℤ◌
entered-cookie = refl

matched-login : matched login_request ≡ public post_login
unfolding str_eq
matched-login = refl

matched-next : matched next_request ≡ protected get_root
unfolding str_eq
matched-next = refl

fresh-sent : sent (fresh none) ≡ []
unfolding sent cookies
fresh-sent = refl

next_is_read : next_request.method ≢ str "POST"
unfolding is_post str_eq
next_is_read e = cc (ap is_post e)

routes-login_example :
    routes site demo_parse matched not_found next_request (fresh entered.app.world)
    ≡ handle_protected site demo_parse matched not_found get_root next_request
        (authenticate site next_request (str "eA") (security_headers (fresh entered.app.world))).1
unfolding is_open
routes-login_example =
    routes-login site demo_parse matched not_found IsAfter100 login_request next_request
      (fresh none) (fresh entered.app.world) get_root session_cookie one_session-IsFinding
      accounts-IsEncoding matched-login refl fresh-sent entered-cookie
      (λ expiry e. subst (λ t. pos 100 <ℤ t) (ap (expiry_or expiry) e) (omega arith)) refl
      matched-next (λ post. absurd (next_is_read post)) refl

sent-routes_example :
    ((login_request.method ≡ str "POST")
      × (¬ (
          IsSameHost demo_parse login_request (login_request.header "Origin")
          × IsSameHost demo_parse login_request (login_request.header "Referer")))
      × (sent entered ≡ sent (fresh none)))
    ⊎ ((login_request.method ≡ str "POST"
          → IsSameHost demo_parse login_request (login_request.header "Origin")
            × IsSameHost demo_parse login_request (login_request.header "Referer"))
        × Tracked site demo_parse matched not_found
            (matched login_request)
            login_request
            (fresh none)
            (sent entered))
unfolding is_open
sent-routes_example =
    sent-routes site demo_parse matched not_found not_found_silent login_request (fresh none) refl

-- A logout of the session, and a request for the dashboard with its cookie.
abbrev leaving : Request → Route
leaving r = protected (if str_eq r.method (str "POST") then post_logout else get_root)

abbrev logout_request : Request
logout_request = record demo_request { session_cookie = some (str "eA") }

abbrev open_session_of : Session
open_session_of = record {
  token_hash = str "eA";
  user_id = pos 7;
  expires_at = pos 60_000_000_100;
  created_at = pos 1;
}

abbrev left : Exchange World
left = routes site demo_parse leaving not_found logout_request (fresh (some open_session_of))

leaving-logout : leaving logout_request ≡ protected post_logout
unfolding str_eq
leaving-logout = refl

leaving-next : leaving next_request ≡ protected get_root
unfolding str_eq
leaving-next = refl

blank_headers :
    IsSameHost demo_parse logout_request (logout_request.header "Origin")
    × IsSameHost demo_parse logout_request (logout_request.header "Referer")
unfolding trim_space skip_space start_width end_width
blank_headers = (inl refl, inl refl)

routes-logout_example :
    Turned site demo_parse leaving not_found next_request
      (security_headers (fresh left.app.world))
      (routes site demo_parse leaving not_found next_request (fresh left.app.world))
unfolding authenticate in_world Service.authenticate_token Service.after_find_session Service.logout
    Service.after_delete trim_space skip_space start_width end_width security_headers write
routes-logout_example =
    routes-logout site demo_parse leaving not_found logout_request next_request
      (fresh (some open_session_of)) (fresh left.app.world) get_root (str "eA") open_session_of
      one_session-IsForgetting leaving-logout (λ post. blank_headers) refl refl refl refl refl
      leaving-next refl
