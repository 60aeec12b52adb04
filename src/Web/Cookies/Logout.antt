-- ===== src/Web/Cookies/Logout.antt =====
-- A logout and a request with the same cookie, through the routes of internal/web/routes.go.
use toyotaview.Common.{
  false, Option, none, some, Str, str, GoError, Result, ok, err, sentinel, invalid_session,
  is_empty, ◌≡◌, refl, subst, ap, ◌∙◌,
}
use toyotaview.Common.Text.{trim_space}
use toyotaview.Smartcar.Http.{Url}
use toyotaview.Auth.Types.{Session}
use toyotaview.Auth.Service
use toyotaview.Auth.Sessions.{IsForgetting, authenticate_token-logout}
use toyotaview.Web.Guards.{Request}
use toyotaview.Web.Guards.Laws.{IsSameHost}
use toyotaview.Web.Response.{Site, Exchange, in_world, write, log, redirect, clear_session_cookie}
use toyotaview.Web.Handlers.{authenticate, log_logout, end_session, logout_handler}
use toyotaview.Web.Routes.{
  ProtectedRoute, post_logout, Route, protected, security_headers, handle_protected, routes,
}
use toyotaview.Web.Routes.Closed.{Turned, routes-Turned}
use toyotaview.Web.Cookies.Session.{routes-served}

module _ {W : Type 0} (site : Site W) (parse_url : Str → Result Url) (matched : Request → Route)
    (not_found : Request → Exchange W → Exchange W) where
  -- What Logout does with a token.
  abbrev pub logged_out : Str → Exchange W → Option GoError × W
  logged_out value x = Service.logout site.accounts site.storage site.session_ttl value x.app.world

  -- The exchange in which a protected route's handler starts, for a request with this cookie.
  abbrev pub admitted : Request → Str → Exchange W → Exchange W
  admitted r value x = (authenticate site r value (security_headers x)).1

  world-log_logout :
      (r : Request) (p : Option GoError × Exchange W)
      → (log_logout site r p).app.world ≡ p.1.app.world
  unfolding log_logout log
  world-log_logout r (none, x) = refl
  world-log_logout r (some e, x) = refl

  world-logout_handler :
      (r : Request) (value : Str) (x : Exchange W)
      → r.session_cookie ≡ some value
      → (logout_handler site r x).app.world ≡ (logged_out value x).1
  unfolding logout_handler redirect clear_session_cookie write end_session in_world
  world-logout_handler r value x given =
      ap (λ cookie. (end_session site r cookie x).app.world) given ∙ world-log_logout r _

  world-routes :
      (r : Request) (value : Str) (session : Session) (x : Exchange W)
      → matched r ≡ protected post_logout
      → (r.method ≡ str "POST"
          → IsSameHost parse_url r (r.header "Origin")
            × IsSameHost parse_url r (r.header "Referer"))
      → r.session_cookie ≡ some value
      → is_empty (trim_space value) ≡ false
      → (authenticate site r value (security_headers x)).0 ≡ ok session
      → (routes site parse_url matched not_found r x).app.world
        ≡ (logged_out value (admitted r value x)).1
  unfolding handle_protected
  world-routes r value session x leaving local given shown known =
      ap (λ q. q.app.world)
        (routes-served site parse_url matched not_found r x post_logout value session leaving local
          given shown known)
      ∙ world-logout_handler r value (admitted r value x) given

  refused_after :
      (r : Request) (value : Str) (x y : Exchange W)
      → IsForgetting site.storage
      → is_empty (trim_space value) ≡ false
      → (logged_out value x).0 ≡ none
      → y.app.world ≡ (logged_out value x).1
      → (authenticate site r value (security_headers y)).0 ≡ err (sentinel invalid_session)
  unfolding authenticate in_world security_headers write
  refused_after r value x y keeps shown gone next =
      ap (λ w. (Service.authenticate_token site.accounts site.storage site.session_ttl value w).0)
        next
      ∙ authenticate_token-logout site.accounts site.storage site.session_ttl value x.app.world
          keeps shown gone

  -- Where the storage does not find a session that it has just deleted without an error: after a POST
  -- to the logout page from the same host, with a session cookie that authenticates and whose session the storage deletes without an error, a
  -- request for a protected route with that cookie is turned away: it is redirected to the login
  -- page or refused with 403, and nothing but AuthenticateToken runs.
  pub routes-logout :
      (r r' : Request) (x y : Exchange W) (p : ProtectedRoute) (value : Str) (session : Session)
      → IsForgetting site.storage
      → matched r ≡ protected post_logout
      → (r.method ≡ str "POST"
          → IsSameHost parse_url r (r.header "Origin")
            × IsSameHost parse_url r (r.header "Referer"))
      → r.session_cookie ≡ some value
      → is_empty (trim_space value) ≡ false
      → (authenticate site r value (security_headers x)).0 ≡ ok session
      → (logged_out value (admitted r value x)).0 ≡ none
      → y.app.world ≡ (routes site parse_url matched not_found r x).app.world
      → matched r' ≡ protected p
      → r'.session_cookie ≡ some value
      → Turned site parse_url matched not_found r'
          (security_headers y)
          (routes site parse_url matched not_found r' y)
  routes-logout r r' x y p value session keeps leaving local given shown known gone next chosen
        again =
      let refused =
        refused_after r' value (admitted r value x) y keeps shown gone
          (next ∙ world-routes r value session x leaving local given shown known) in
      routes-Turned site parse_url matched not_found r' y p chosen (λ v e.
        let same : value ≡ v = cc (again, e) in
        (
          sentinel invalid_session,
          subst
              (λ u.
                (authenticate site r' u (security_headers y)).0 ≡ err (sentinel invalid_session))
              same refused,
        ))
