-- ===== src/Web/Cookies/Session.antt =====
-- A login on the login page and a request with its cookie, through the routes of
-- internal/web/routes.go.
use toyotaview.Common.{
  Time, false, [], ◌∷◌, some, Str, str, Result, ok, err, is_empty, ◌≡◌, refl, sym, subst, ap, ◌∙◌,
  inl, inr,
}
use toyotaview.Common.Text.{trim_space}
use toyotaview.Smartcar.Http.{Url}
use toyotaview.Auth.Types.{Session}
use toyotaview.Auth.Service
use toyotaview.Auth.Sessions.{IsFinding, IsEncoding, authenticate_token-login, token_shown-login}
use toyotaview.Web.Guards.{Request, require_login, with_cookie, after_authenticate}
use toyotaview.Web.Guards.Laws.{IsSameHost, require_same_origin-Screened}
use toyotaview.Web.Response.{Site, Cookie, Exchange, in_world, write, error_written}
use toyotaview.Web.Handlers.{authenticate, login_handler}
use toyotaview.Web.Routes.{
  ProtectedRoute, Route, public, post_login, handle_public, protected, security_headers,
  handle_protected, protect, serve, dispatch, finish_answer, routes,
}
use toyotaview.Web.Cookies.{
  cookies, sent, IsOpen, IsOpen-security_headers, sent-security_headers, sent-write_other,
}
use toyotaview.Web.Cookies.Pages.{Entered, login_handler-Entered}

module _ {W : Type 0} (site : Site W) (parse_url : Str → Result Url) (matched : Request → Route)
    (not_found : Request → Exchange W → Exchange W) where
  after_authenticate-served :
      (p : ProtectedRoute) (r : Request) (q : Result Session × Exchange W) (session : Session)
      → q.0 ≡ ok session
      → finish_answer site parse_url matched not_found r (
          after_authenticate (authenticate site r) (protect site parse_url matched not_found p) r q)
        ≡ handle_protected site parse_url matched not_found p r q.1
  unfolding after_authenticate protect finish_answer
  after_authenticate-served p r (ok s, x) session h = refl
  after_authenticate-served p r (err e, x) session h = absurd (cc h)

  -- A request whose cookie authenticates is answered by the handler of its route.
  pub routes-served :
      (r : Request) (x : Exchange W) (p : ProtectedRoute) (value : Str) (session : Session)
      → matched r ≡ protected p
      → (r.method ≡ str "POST"
          → IsSameHost parse_url r (r.header "Origin")
            × IsSameHost parse_url r (r.header "Referer"))
      → r.session_cookie ≡ some value
      → is_empty (trim_space value) ≡ false
      → (authenticate site r value (security_headers x)).0 ≡ ok session
      → routes site parse_url matched not_found r x
        ≡ handle_protected site parse_url matched not_found p r
            (authenticate site r value (security_headers x)).1
  unfolding routes dispatch serve require_login with_cookie
  routes-served r x p value session chosen local given shown known =
      elim (require_same_origin-Screened parse_url (dispatch site parse_url matched not_found) r
        (security_headers x)) [
          | inl (what, post, foreign, refused) ↦ absurd (foreign (local post))
          | inr (passed, near) ↦
              rw (passed, dispatch, chosen)
                (subst
                  (λ cookie.
                    finish_answer site parse_url matched not_found r (
                      with_cookie (authenticate site r) (protect site parse_url matched not_found p)
                        r cookie (security_headers x))
                    ≡ handle_protected site parse_url matched not_found p r
                        (authenticate site r value (security_headers x)).1)
                  (sym given)
                  (rw (with_cookie, shown)
                    (after_authenticate-served p r (authenticate site r value (security_headers x))
                      session known)))
        ]

  -- What the outer mux answers is its handler's, or a refusal, which sends no cookie.
  routes-login_handler :
      (r : Request) (x : Exchange W) (c : Cookie)
      → matched r ≡ public post_login
      → IsOpen x
      → sent x ≡ []
      → sent (routes site parse_url matched not_found r x) ≡ c ∷ []
      → Entered site r x c (routes site parse_url matched not_found r x)
  unfolding routes dispatch serve finish_answer handle_public cookies security_headers write
  routes-login_handler r x c chosen unsent fresh h =
      elim (require_same_origin-Screened parse_url (dispatch site parse_url matched not_found) r
        (security_headers x)) [
          | inl (what, post, foreign, refused) ↦
              let nothing : sent (security_headers x) ≡ [] = sent-security_headers x ∙ fresh in
              let only : c ∷ [] ≡ [] =
                sym h
                ∙ ap (λ q. sent (finish_answer site parse_url matched not_found r q)) refused
                ∙ sent-write_other (error_written (str what) 403) (security_headers x) refl
                ∙ nothing in
              absurd (cc only)
          | inr (passed, near) ↦
              let answered : routes site parse_url matched not_found r x
                  ≡ login_handler site r (security_headers x) =
                rw (passed, dispatch, chosen) refl in
              subst (Entered site r x c) (sym answered) (
                login_handler-Entered site r (security_headers x) c
                  (IsOpen-security_headers x unsent) (sent-security_headers x ∙ fresh)
                  (sym (ap sent answered) ∙ h))
        ]

  -- Where the storage and the making of tokens keep their promises: if the login page's POST route
  -- sends a cookie as its only one, in a response that had sent no status line, and the cookie's
  -- expiry lies in the future of the storage's clock, then a request for a protected route that comes
  -- next, with the value of that cookie as its session cookie and, if it is a POST, from the same
  -- host, is answered by the handler of its route.
  pub routes-login :
      (IsFuture : Time → W → Type 0) (r r' : Request) (x y : Exchange W) (p : ProtectedRoute)
      (c : Cookie)
      → IsFinding site.storage IsFuture
      → IsEncoding site.accounts
      → matched r ≡ public post_login
      → IsOpen x
      → sent x ≡ []
      → sent (routes site parse_url matched not_found r x) ≡ c ∷ []
      → ((expiry : Time)
          → c.expires ≡ some expiry
          → IsFuture expiry (routes site parse_url matched not_found r x).app.world)
      → y.app.world ≡ (routes site parse_url matched not_found r x).app.world
      → matched r' ≡ protected p
      → (r'.method ≡ str "POST"
          → IsSameHost parse_url r' (r'.header "Origin")
            × IsSameHost parse_url r' (r'.header "Referer"))
      → r'.session_cookie ≡ some c.value
      → routes site parse_url matched not_found r' y
        ≡ handle_protected site parse_url matched not_found p r'
            (authenticate site r' c.value (security_headers y)).1
  unfolding authenticate in_world security_headers write
  routes-login IsFuture r r' x y p c keeps encodes entering unsent fresh h ahead next chosen local
        given =
      let entry = routes-login_handler r x c entering unsent fresh h in
      routes-served r' y p c.value entry.0.session chosen local given
        (ap (λ t. is_empty (trim_space t)) (entry.2)
          ∙ token_shown-login site.accounts site.storage site.session_ttl _ _ _ _ entry.0 encodes
              (entry.1))
        (ap
            (λ w.
              (Service.authenticate_token site.accounts site.storage site.session_ttl c.value w).0)
            next
          ∙ ap
              (λ t.
                (Service.authenticate_token site.accounts site.storage site.session_ttl t
                  (routes site parse_url matched not_found r x).app.world).0)
              (entry.2)
          ∙ authenticate_token-login site.accounts site.storage site.session_ttl IsFuture _ _ _ _
              entry.0 keeps encodes (ahead _ (entry.3)) (entry.1))
