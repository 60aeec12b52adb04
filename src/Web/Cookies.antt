-- ===== src/Web/Cookies.antt =====
-- The cookies among the writes of internal/web/handlers.go: which operations send none.
pub mod Pages
pub mod Actions
pub mod Laws
pub mod Session
pub mod Logout
mod Tests
use toyotaview.Common.{
  ℕ, Bool, true, false, Option, none, some, List, [], ◌∷◌, ◌++◌, Str, String, GoError, Result, ok,
  err, ◌≡◌, refl, ap, ◌∙◌,
}
use toyotaview.App.Types.{State}
use toyotaview.Web.Routes.{security_headers}
use toyotaview.Web.Response.{
  Page, Site, Cookie, Exchange, Write, header_set, content_type, status, body, json_body,
  cookie_set, redirected, error_written, write, log, in_world, in_app, redirect, write_json,
  log_error, or_plain, send, render, render_error, render_login_error, render_signup_error,
}

-- The cookies that are sent, in order: those that are set before the status line goes out, with which
-- the headers go too. A body sends a status line if none went before.
unfoldable pub cookies : List Write → List Cookie
cookies [] = []
cookies (cookie_set c ∷ ws) = c ∷ cookies ws
cookies (header_set name value ∷ ws) = cookies ws
cookies (content_type value ∷ ws) = cookies ws
cookies (status code ∷ ws) = []
cookies (body bytes ∷ ws) = []
cookies (json_body fields ∷ ws) = []
cookies (redirected path code ∷ ws) = []
cookies (error_written message code ∷ ws) = []

-- No status line is sent yet.
unfoldable pub is_open : List Write → Bool
is_open [] = true
is_open (cookie_set c ∷ ws) = is_open ws
is_open (header_set name value ∷ ws) = is_open ws
is_open (content_type value ∷ ws) = is_open ws
is_open (status code ∷ ws) = false
is_open (body bytes ∷ ws) = false
is_open (json_body fields ∷ ws) = false
is_open (redirected path code ∷ ws) = false
is_open (error_written message code ∷ ws) = false

cookies-other :
    (us : List Write) (e : Write) → cookies (e ∷ []) ≡ [] → cookies (us ++ e ∷ []) ≡ cookies us
unfolding cookies
cookies-other [] e h = h
cookies-other (cookie_set c ∷ us) e h = ap (λ cs. c ∷ cs) (cookies-other us e h)
cookies-other (header_set name value ∷ us) e h = cookies-other us e h
cookies-other (content_type value ∷ us) e h = cookies-other us e h
cookies-other (status code ∷ us) e h = refl
cookies-other (body bytes ∷ us) e h = refl
cookies-other (json_body fields ∷ us) e h = refl
cookies-other (redirected path code ∷ us) e h = refl
cookies-other (error_written message code ∷ us) e h = refl

cookies-set :
    (us : List Write) (c : Cookie)
    → is_open us ≡ true
    → cookies (us ++ cookie_set c ∷ []) ≡ cookies us ++ c ∷ []
unfolding cookies is_open
cookies-set [] c h = refl
cookies-set (cookie_set d ∷ us) c h = ap (λ cs. d ∷ cs) (cookies-set us c h)
cookies-set (header_set name value ∷ us) c h = cookies-set us c h
cookies-set (content_type value ∷ us) c h = cookies-set us c h
cookies-set (status code ∷ us) c h = absurd (cc h)
cookies-set (body bytes ∷ us) c h = absurd (cc h)
cookies-set (json_body fields ∷ us) c h = absurd (cc h)
cookies-set (redirected path code ∷ us) c h = absurd (cc h)
cookies-set (error_written message code ∷ us) c h = absurd (cc h)

is_open-append : (us ws : List Write) → is_open us ≡ true → is_open (us ++ ws) ≡ is_open ws
unfolding is_open
is_open-append [] ws h = refl
is_open-append (cookie_set d ∷ us) ws h = is_open-append us ws h
is_open-append (header_set name value ∷ us) ws h = is_open-append us ws h
is_open-append (content_type value ∷ us) ws h = is_open-append us ws h
is_open-append (status code ∷ us) ws h = absurd (cc h)
is_open-append (body bytes ∷ us) ws h = absurd (cc h)
is_open-append (json_body fields ∷ us) ws h = absurd (cc h)
is_open-append (redirected path code ∷ us) ws h = absurd (cc h)
is_open-append (error_written message code ∷ us) ws h = absurd (cc h)

module _ {W : Type 0} where
  -- The cookies of an exchange.
  unfoldable pub sent : Exchange W → List Cookie
  sent x = cookies x.writes

  -- The exchange has sent no status line.
  abbrev pub IsOpen : Exchange W → Type 0
  IsOpen x = is_open x.writes ≡ true

  pub sent-write_cookie :
      (c : Cookie) (x : Exchange W) → IsOpen x → sent (write (cookie_set c) x) ≡ sent x ++ c ∷ []
  unfolding sent write
  sent-write_cookie c x h = cookies-set x.writes c h

  pub sent-write_other :
      (e : Write) (x : Exchange W) → cookies (e ∷ []) ≡ [] → sent (write e x) ≡ sent x
  unfolding sent write
  sent-write_other e x h = cookies-other x.writes e h

  IsOpen-write :
      (e : Write) (x : Exchange W) → is_open (e ∷ []) ≡ true → IsOpen x → IsOpen (write e x)
  unfolding write
  IsOpen-write e x h unsent = is_open-append x.writes (e ∷ []) unsent ∙ h

  pub IsOpen-in_world :
      {A : Type 0} (f : W → A × W) (x : Exchange W) → IsOpen x → IsOpen (in_world f x).1
  unfolding in_world
  IsOpen-in_world f x unsent = unsent

  pub IsOpen-log : (what : String) (e : GoError) (x : Exchange W) → IsOpen x → IsOpen (log what e x)
  unfolding log
  IsOpen-log what e x unsent = unsent

  pub IsOpen-security_headers : (x : Exchange W) → IsOpen x → IsOpen (security_headers x)
  unfolding security_headers is_open
  IsOpen-security_headers x unsent =
      IsOpen-write _ _ refl
        (IsOpen-write _ _ refl (IsOpen-write _ _ refl (IsOpen-write _ x refl unsent)))

  pub sent-log : (what : String) (e : GoError) (x : Exchange W) → sent (log what e x) ≡ sent x
  unfolding sent log
  sent-log what e x = refl

  pub sent-in_world : {A : Type 0} (f : W → A × W) (x : Exchange W) → sent (in_world f x).1 ≡ sent x
  unfolding sent in_world
  sent-in_world f x = refl

  pub sent-in_app :
      {A : Type 0} (f : State W → A × State W) (x : Exchange W) → sent (in_app f x).1 ≡ sent x
  unfolding sent in_app
  sent-in_app f x = refl

  pub sent-redirect :
      (path : Str) (code : ℕ) (x : Exchange W) → sent (redirect path code x) ≡ sent x
  unfolding redirect cookies
  sent-redirect path code x = sent-write_other (redirected path code) x refl

  pub sent-write_json :
      (fields : List (String × Str)) (x : Exchange W) → sent (write_json fields x) ≡ sent x
  unfolding write_json cookies
  sent-write_json fields x =
      sent-write_other (json_body fields) _ refl
      ∙ sent-write_other (status 200) _ refl
      ∙ sent-write_other (content_type "application/json") x refl

  pub sent-log_error :
      (what : String) (p : Option GoError × Exchange W) → sent (log_error what p) ≡ sent p.1
  unfolding log_error
  sent-log_error what (none, x) = refl
  sent-log_error what (some e, x) = sent-log what e x

  sent-or_plain :
      (what : String) (message : Str) (code : ℕ) (p : Option GoError × Exchange W)
      → sent (or_plain what message code p) ≡ sent p.1
  unfolding or_plain cookies
  sent-or_plain what message code (none, x) = refl
  sent-or_plain what message code (some e, x) =
      sent-write_other (error_written message code) _ refl ∙ sent-log what e x

  pub sent-security_headers : (x : Exchange W) → sent (security_headers x) ≡ sent x
  unfolding security_headers cookies
  sent-security_headers x =
      sent-write_other _ _ refl
      ∙ sent-write_other _ _ refl
      ∙ sent-write_other _ _ refl
      ∙ sent-write_other _ x refl

module _ {W : Type 0} (site : Site W) where
  sent-send : (code : ℕ) (r : Result Str) (x : Exchange W) → sent (send site code r x).1 ≡ sent x
  unfolding send cookies
  sent-send code (err e) x = refl
  sent-send code (ok bytes) x =
      sent-in_world (site.write_body bytes) _
      ∙ sent-write_other (body bytes) _ refl
      ∙ sent-write_other (status code) _ refl
      ∙ sent-write_other (content_type "text/html; charset=utf-8") x refl

  pub sent-render :
      (code : ℕ) (page : Page) (x : Exchange W) → sent (render site code page x).1 ≡ sent x
  unfolding render
  sent-render code page x = sent-send code (site.execute page) x

  pub sent-shown :
      (what : String) (code : ℕ) (page : Page) (x : Exchange W)
      → sent (log_error what (render site code page x)) ≡ sent x
  sent-shown what code page x = sent-log_error what _ ∙ sent-render code page x

  pub sent-render_error :
      (code : ℕ) (message : Str) (x : Exchange W) → sent (render_error site code message x) ≡ sent x
  unfolding render_error
  sent-render_error code message x = sent-or_plain _ _ _ _ ∙ sent-render code _ x

  pub sent-render_login_error :
      (code : ℕ) (message username : Str) (x : Exchange W)
      → sent (render_login_error site code message username x) ≡ sent x
  unfolding render_login_error
  sent-render_login_error code message username x = sent-or_plain _ _ _ _ ∙ sent-render code _ x

  pub sent-render_signup_error :
      (code : ℕ) (message username : Str) (x : Exchange W)
      → sent (render_signup_error site code message username x) ≡ sent x
  unfolding render_signup_error
  sent-render_signup_error code message username x = sent-or_plain _ _ _ _ ∙ sent-render code _ x
