-- ===== src/Web/Response.antt =====
-- What the handlers of internal/web/handlers.go write, and render, renderError, renderAuthError and
-- the session cookie.
use toyotaview.Common.{
  ℕ, ℤ, pos, negsuc, Bool, true, ◌||◌, Option, none, some, List, [], ◌∷◌, ◌++◌, Str, str, String,
  GoError, Result, ok, err, Time, Duration,
}
use toyotaview.Smartcar.Api.{Api}
use toyotaview.App.Types.{State, Service}
use toyotaview.Auth.Types
use toyotaview.Auth.Service.{normalize_username}
use toyotaview.Web.Guards.{Request}
use toyotaview.Web.Views.{Printer, DashboardPage, VehiclePage, ErrorPage, AuthPage}

pub record Cookie : Type 0 where
  pub value : Str
  pub path : Str
  pub expires : Option Time
  pub max_age : ℤ
  pub http_only : Bool
  pub same_site_lax : Bool
  pub secure : Bool

-- A template and its page.
pub data Page : Type 0 where
  dashboard : DashboardPage → Page
  vehicle : VehiclePage → Page
  login : AuthPage → Page
  signup : AuthPage → Page
  error_page : ErrorPage → Page

-- The calls on the `http.ResponseWriter`, of net/http's helpers too, in order.
pub data Write : Type 0 where
  header_set : String → String → Write
  content_type : String → Write
  status : ℕ → Write
  body : Str → Write
  json_body : List (String × Str) → Write
  cookie_set : Cookie → Write
  redirected : Str → ℕ → Write
  error_written : Str → ℕ → Write

pub record VersionInfo : Type 0 where
  pub version : Str
  pub commit : Str
  pub date : Str

-- The fields of `Handler`, with the service and the accounts that it is made with. `execute` is
-- the execution of a page's template, and `write_body` its writing to the connection.
pub record Site (W : Type 0) : Type 0 where
  pub api : Api W
  pub now : W → Time
  pub service : Service
  pub accounts : Types.Library W
  pub storage : Types.Store W
  pub session_ttl : Duration
  pub secure_cookies : Bool
  pub printer : Printer
  pub execute : Page → Result Str
  pub write_body : Str → W → Option GoError × W
  -- errors.Is against http.ErrAbortHandler.
  pub is_abort_handler : GoError → Bool
  pub path_escape : Str → Str
  pub version : VersionInfo

-- What a handler reads and changes: the service's state, what it writes, and the errors it logs.
pub record Exchange (W : Type 0) : Type 0 where
  pub app : State W
  pub writes : List Write
  pub logs : List (String × GoError)

module _ {W : Type 0} where
  unfoldable pub write : Write → Exchange W → Exchange W
  write e x = record x { writes = x.writes ++ e ∷ [] }

  unfoldable pub log : String → GoError → Exchange W → Exchange W
  log what e x = record x { logs = x.logs ++ (what, e) ∷ [] }

  -- A call of the accounts.
  unfoldable pub in_world : {A : Type 0} → (W → A × W) → Exchange W → A × Exchange W
  in_world f x =
      let app : State W = x.app in
      ((f app.world).0, record x { app = record app { world = (f app.world).1 } })

  -- A call of the service.
  unfoldable pub in_app : {A : Type 0} → (State W → A × State W) → Exchange W → A × Exchange W
  in_app f x = ((f x.app).0, record x { app = (f x.app).1 })

  unfoldable pub redirect : Str → ℕ → Exchange W → Exchange W
  unfolding write
  redirect path code x = write (redirected path code) x

  unfoldable pub write_json : List (String × Str) → Exchange W → Exchange W
  unfolding write
  write_json fields x =
      write (json_body fields) (write (status 200) (write (content_type "application/json") x))

  -- Logs an error of `render`.
  unfoldable pub log_error : String → Option GoError × Exchange W → Exchange W
  unfolding log
  log_error what (none, x) = x
  log_error what (some e, x) = log what e x

  -- Logs an error of `render` and answers with a plain one.
  unfoldable pub or_plain : String → Str → ℕ → Option GoError × Exchange W → Exchange W
  unfolding log write
  or_plain what message code (none, x) = x
  or_plain what message code (some e, x) = write (error_written message code) (log what e x)

module _ {W : Type 0} (site : Site W) where
  unfoldable pub send : ℕ → Result Str → Exchange W → Option GoError × Exchange W
  unfolding write in_world
  send code (err e) x = (some e, x)
  send code (ok bytes) x =
      in_world (site.write_body bytes) (
        write (body bytes)
          (write (status code) (write (content_type "text/html; charset=utf-8") x)))

  unfoldable pub render : ℕ → Page → Exchange W → Option GoError × Exchange W
  unfolding send
  render code page x = send code (site.execute page) x

  unfoldable pub render_error : ℕ → Str → Exchange W → Exchange W
  unfolding render or_plain
  render_error code message x = or_plain "render error page" message code (
      render code (error_page (record { title = str "Error"; status = code; message = message })) x)

  -- renderAuthError for the login page and for the signup page.
  unfoldable pub render_login_error : ℕ → Str → Str → Exchange W → Exchange W
  unfolding render or_plain
  render_login_error code message username x = or_plain "render auth error" message code (
      render code
        (login (record {
          title = str "Sign in";
          error = message;
          username = normalize_username site.accounts username;
        }))
        x)

  unfoldable pub render_signup_error : ℕ → Str → Str → Exchange W → Exchange W
  unfolding render or_plain
  render_signup_error code message username x = or_plain "render auth error" message code (
      render code
        (signup (record {
          title = str "Create account";
          error = message;
          username = normalize_username site.accounts username;
        }))
        x)

  unfoldable pub session_cookie_of : Request → Str → Option Time → ℤ → Cookie
  session_cookie_of r value expires max_age = record {
    value = value;
    path = str "/";
    expires = expires;
    max_age = max_age;
    http_only = true;
    same_site_lax = true;
    secure = site.secure_cookies || r.tls;
  }

  unfoldable pub set_session_cookie : Request → Str → Time → Exchange W → Exchange W
  unfolding write session_cookie_of
  set_session_cookie r token expires_at x =
      write (cookie_set (session_cookie_of r token (some expires_at) (pos 0))) x

  unfoldable pub clear_session_cookie : Request → Exchange W → Exchange W
  unfolding write session_cookie_of
  clear_session_cookie r x = write (cookie_set (session_cookie_of r [] none (negsuc 0))) x
