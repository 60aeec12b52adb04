-- ===== src/Web/Cookies/Pages.antt =====
-- The cookies that the handlers of the login and the signup page in internal/web/handlers.go send.
use toyotaview.Common.{
  pos, Time, Bool, true, false, Option, none, some, List, [], ◌∷◌, ◌++◌, Str, str, String, GoError,
  Result, ok, err, is_error, invalid_credentials, Bool-cases, Option-cases, ◌||◌, ◌≡◌, refl, sym,
  ap, ◌∙◌, inl, inr,
}
use mathlib.Core.List.{append-nil}
use toyotaview.Auth.Types.{Session, SessionResult}
use toyotaview.Auth.Service
use toyotaview.Web.Guards.{Request}
use toyotaview.Web.Response.{
  Page, Site, Cookie, Exchange, in_world, session_cookie_of, set_session_cookie, render_login_error,
  render_signup_error, redirect, write,
}
use toyotaview.Web.Handlers.{
  signup_error, authenticate, is_valid, is_valid_cookie, has_valid_session, show_form, login_page,
  signup_page, enter, after_login, login_parsed, login_handler, after_signup, signup_parsed,
  signup_handler,
}
use toyotaview.Web.Cookies.{
  sent, IsOpen, IsOpen-in_world, sent-write_cookie, sent-log, sent-in_world, sent-redirect,
  sent-shown, sent-render_error, sent-render_login_error, sent-render_signup_error,
}

-- The session of a successful call, and none where the call is not made or fails.
abbrev pub result_of : Result SessionResult → Option SessionResult
result_of (ok result) = some result
result_of (err e) = none

abbrev first_value : List Cookie → Str
first_value [] = []
first_value (c ∷ cs) = c.value

abbrev first_expiry : List Cookie → Option Time
first_expiry [] = none
first_expiry (c ∷ cs) = c.expires

module _ {W : Type 0} (site : Site W) (r : Request) where
  -- The session that Login gives for the form.
  abbrev pub logged_in : Option GoError → W → Option SessionResult
  logged_in (some e) w = none
  logged_in none w =
      result_of
        (Service.login site.accounts site.storage site.session_ttl (r.form_value "username")
          (r.form_value "password") w).0

  -- The session that Signup gives for the form.
  abbrev pub signed_up : Option GoError → W → Option SessionResult
  signed_up (some e) w = none
  signed_up none w =
      result_of
        (Service.signup site.accounts site.storage site.session_ttl (r.form_value "username")
          (r.form_value "password") w).0

  -- The cookie that hands a session out: the token, until the session expires, out of the reach of
  -- scripts and of requests of other sites, and over TLS alone where that is configured or in use.
  abbrev pub opening : Option SessionResult → List Cookie
  opening none = []
  opening (some result) =
      record {
        value = result.token;
        path = str "/";
        expires = some result.session.expires_at;
        max_age = pos 0;
        http_only = true;
        same_site_lax = true;
        secure = site.secure_cookies || r.tls;
      }
      ∷ []

  sent-is_valid : (p : Result Session × Exchange W) → sent (is_valid site r p).1 ≡ sent p.1
  unfolding is_valid
  sent-is_valid (ok session, x) = refl
  sent-is_valid (err e, x) = refl

  sent-is_valid_cookie :
      (cookie : Option Str) (x : Exchange W) → sent (is_valid_cookie site r cookie x).1 ≡ sent x
  unfolding is_valid_cookie authenticate
  sent-is_valid_cookie none x = refl
  sent-is_valid_cookie (some value) x =
      sent-is_valid (authenticate site r value x) ∙ sent-in_world _ x

  sent-show_form :
      (what : String) (page : Page) (p : Bool × Exchange W)
      → sent (show_form site r what page p) ≡ sent p.1
  unfolding show_form
  sent-show_form what page (true, x) = sent-redirect (str "/") 303 x
  sent-show_form what page (false, x) = sent-shown site what 200 page x

  pub sent-login_page : (x : Exchange W) → sent (login_page site r x) ≡ sent x
  unfolding login_page has_valid_session
  sent-login_page x = sent-show_form _ _ _ ∙ sent-is_valid_cookie r.session_cookie x

  pub sent-signup_page : (x : Exchange W) → sent (signup_page site r x) ≡ sent x
  unfolding signup_page has_valid_session
  sent-signup_page x = sent-show_form _ _ _ ∙ sent-is_valid_cookie r.session_cookie x

  sent-enter :
      (result : SessionResult) (x : Exchange W)
      → IsOpen x
      → sent (enter site r result x) ≡ sent x ++ opening (some result)
  unfolding enter set_session_cookie session_cookie_of
  sent-enter result x unsent = sent-redirect (str "/") 303 _ ∙ sent-write_cookie _ x unsent

  -- No session is handed out.
  sent-none : (out x : Exchange W) → sent out ≡ sent x → sent out ≡ sent x ++ opening none
  sent-none out x same = same ∙ sym (append-nil (sent x))

  sent-after_login :
      (username : Str) (p : Result SessionResult × Exchange W)
      → IsOpen p.1
      → sent (after_login site r username p) ≡ sent p.1 ++ opening (result_of p.0)
  unfolding after_login
  sent-after_login username (ok result, x) unsent = sent-enter result x unsent
  sent-after_login username (err e, x) unsent = elim (Bool-cases (is_error invalid_credentials e)) [
    | inl denied ↦ rw denied (sent-none _ x (sent-render_login_error site _ _ username x))
    | inr broken ↦
        rw broken (sent-none _ x (sent-render_error site _ _ _ ∙ sent-log "login failed" e x))
  ]

  -- A granted login after which the world is that of an exchange, with a cookie that holds its token
  -- and expires with its session.
  abbrev pub Entered : Exchange W → Cookie → Exchange W → Type 0
  Entered x c out =
      (result : SessionResult) × (Service.login site.accounts site.storage site.session_ttl
          (r.form_value "username") (r.form_value "password") x.app.world
        ≡ (ok result, out.app.world))
      × (c.value ≡ result.token)
      × (c.expires ≡ some result.session.expires_at)

  entered-after_login :
      (username : Str) (p : Result SessionResult × Exchange W) (c : Cookie)
      → IsOpen p.1
      → sent p.1 ≡ []
      → sent (after_login site r username p) ≡ c ∷ []
      → (result : SessionResult) × (p.0 ≡ ok result)
        × (c.value ≡ result.token)
        × (c.expires ≡ some result.session.expires_at)
        × ((after_login site r username p).app.world ≡ p.1.app.world)
  unfolding after_login enter set_session_cookie redirect write
  entered-after_login username (ok result, x) c unsent fresh h =
      let only : c ∷ [] ≡ opening (some result) =
        sym h ∙ sent-enter result x unsent ∙ ap (λ cs. cs ++ opening (some result)) fresh in
      (result, refl, ap first_value only, ap first_expiry only, refl)
  entered-after_login username (err e, x) c unsent fresh h =
      let only : c ∷ [] ≡ [] =
        sym h ∙ sent-after_login username (err e, x) unsent ∙ ap (λ cs. cs ++ []) fresh in
      absurd (cc only)

  login_parsed-Entered :
      (e : Option GoError) (x : Exchange W) (c : Cookie)
      → IsOpen x
      → sent x ≡ []
      → sent (login_parsed site r e x) ≡ c ∷ []
      → Entered x c (login_parsed site r e x)
  unfolding login_parsed in_world
  login_parsed-Entered (some e) x c unsent fresh h =
      let only : c ∷ [] ≡ [] =
        sym h
        ∙ sent-render_login_error site 400 (str "Unable to read sign-in form.") [] x
        ∙ fresh in
      absurd (cc only)
  login_parsed-Entered none x c unsent fresh h =
      let call : W → Result SessionResult × W =
        Service.login site.accounts site.storage site.session_ttl (r.form_value "username")
          (r.form_value "password") in
      let entry =
        entered-after_login (r.form_value "username") (in_world call x) c
          (IsOpen-in_world call x unsent) (sent-in_world call x ∙ fresh) h in
      (entry.0, (λ i. (entry.1 i, sym (entry.4) i)), entry.2, entry.3)

  -- A login that sends a cookie as its only one is a login that Login granted, and the cookie
  -- holds its token.
  pub login_handler-Entered :
      (x : Exchange W) (c : Cookie)
      → IsOpen x
      → sent x ≡ []
      → sent (login_handler site r x) ≡ c ∷ []
      → Entered x c (login_handler site r x)
  unfolding login_handler
  login_handler-Entered x c unsent fresh h = login_parsed-Entered r.parse_error x c unsent fresh h

  sent-login_parsed :
      (e : Option GoError) (x : Exchange W)
      → IsOpen x
      → sent (login_parsed site r e x) ≡ sent x ++ opening (logged_in e x.app.world)
  unfolding login_parsed in_world sent
  sent-login_parsed none x unsent = sent-after_login _ _ unsent
  sent-login_parsed (some e) x unsent =
      sent-none (render_login_error site 400 (str "Unable to read sign-in form.") [] x) x
        (sent-render_login_error site _ _ [] x)

  -- A login sends the cookie of the session that Login gives, and none where it gives none.
  pub sent-login_handler :
      (x : Exchange W)
      → IsOpen x
      → sent (login_handler site r x) ≡ sent x ++ opening (logged_in r.parse_error x.app.world)
  unfolding login_handler
  sent-login_handler x unsent = sent-login_parsed r.parse_error x unsent

  sent-after_signup :
      (username : Str) (p : Result SessionResult × Exchange W)
      → IsOpen p.1
      → sent (after_signup site r username p) ≡ sent p.1 ++ opening (result_of p.0)
  unfolding after_signup
  sent-after_signup username (ok result, x) unsent = sent-enter result x unsent
  sent-after_signup username (err e, x) unsent = elim (Option-cases (signup_error e)) [
    | inl broken ↦
        rw (after_signup, broken)
          (sent-none _ x (sent-render_error site _ _ _ ∙ sent-log "signup failed" e x))
    | inr (refusal, refused) ↦
        rw (after_signup, refused)
          (sent-none _ x (sent-render_signup_error site refusal.0 refusal.1 username x))
  ]

  sent-signup_parsed :
      (e : Option GoError) (x : Exchange W)
      → IsOpen x
      → sent (signup_parsed site r e x) ≡ sent x ++ opening (signed_up e x.app.world)
  unfolding signup_parsed in_world sent
  sent-signup_parsed none x unsent = sent-after_signup _ _ unsent
  sent-signup_parsed (some e) x unsent =
      sent-none (render_signup_error site 400 (str "Unable to read signup form.") [] x) x
        (sent-render_signup_error site _ _ [] x)

  -- A signup sends the cookie of the session that Signup gives, and none where it gives none.
  pub sent-signup_handler :
      (x : Exchange W)
      → IsOpen x
      → sent (signup_handler site r x) ≡ sent x ++ opening (signed_up r.parse_error x.app.world)
  unfolding signup_handler
  sent-signup_handler x unsent = sent-signup_parsed r.parse_error x unsent
