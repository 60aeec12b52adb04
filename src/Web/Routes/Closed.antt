-- ===== src/Web/Routes/Closed.antt =====
-- What the routes of internal/web/routes.go do for a request that is not logged in.
use toyotaview.Common.{
  Bool, Option, none, some, Str, str, String, GoError, Result, ok, err, is_empty, Bool-cases, ◌≡◌,
  refl, ◌⊎◌, inl, inr,
}
use toyotaview.Common.Text.{trim_space}
use toyotaview.Smartcar.Http.{Url}
use toyotaview.Auth.Types.{Session}
use toyotaview.Web.Guards.{Request, Answer, require_login, with_cookie, after_authenticate}
use toyotaview.Web.Guards.Laws.{require_same_origin-Screened}
use toyotaview.Web.Response.{Site, Exchange, error_written, write, clear_session_cookie}
use toyotaview.Web.Handlers.{authenticate}
use toyotaview.Web.Routes.{
  Route, ProtectedRoute, protected, security_headers, redirect_to_login, protect, serve, dispatch,
  finish_answer, routes,
}

module _ {W : Type 0} (site : Site W) (parse_url : Str → Result Url) (matched : Request → Route)
    (not_found : Request → Exchange W → Exchange W) where
  -- The session cookie is missing, or AuthenticateToken refuses it.
  abbrev pub IsAnonymous : Request → Exchange W → Type 0
  IsAnonymous r x =
      (value : Str)
      → r.session_cookie ≡ some value
      → (e : GoError) × ((authenticate site r value x).0 ≡ err e)

  -- A redirect to the login page, after AuthenticateToken of the cookie at most, or a refusal.
  abbrev pub Turned : Request → Exchange W → Exchange W → Type 0
  Turned r x out =
      (out ≡ redirect_to_login x)
      ⊎ ((value : Str) × (r.session_cookie ≡ some value)
          × (out ≡ redirect_to_login (clear_session_cookie site r (authenticate site r value x).1)))
      ⊎ ((what : String) × (out ≡ write (error_written (str what) 403) x))

  abbrev IsTurned : Request → Exchange W → Answer Bool × Exchange W → Type 0
  IsTurned r x out = Turned r x (finish_answer site parse_url matched not_found r out)

  Turned-after_authenticate :
      (p : ProtectedRoute) (r : Request) (value : Str) (x : Exchange W)
      (q : Result Session × Exchange W) (e : GoError)
      → r.session_cookie ≡ some value
      → q.0 ≡ err e
      → q.1 ≡ (authenticate site r value x).1
      → IsTurned r x (
          after_authenticate (authenticate site r) (protect site parse_url matched not_found p) r q)
  unfolding after_authenticate finish_answer
  Turned-after_authenticate p r value x (ok session, y) e given h same = absurd (cc h)
  Turned-after_authenticate p r value x (err f, y) e given h same =
      inr (inl (value, given, rw same refl))

  Turned-with_cookie :
      (p : ProtectedRoute) (r : Request) (cookie : Option Str) (x : Exchange W)
      → r.session_cookie ≡ cookie
      → ((value : Str)
          → cookie ≡ some value
          → (e : GoError) × ((authenticate site r value x).0 ≡ err e))
      → IsTurned r x (
          with_cookie (authenticate site r) (protect site parse_url matched not_found p) r cookie x)
  unfolding with_cookie finish_answer
  Turned-with_cookie p r none x given anonymous = inl refl
  Turned-with_cookie p r (some value) x given anonymous =
      let refused = anonymous value refl in
      elim (Bool-cases (is_empty (trim_space value))) [
        | inl blank ↦ rw blank (inl refl)
        | inr shown ↦ rw shown (
            Turned-after_authenticate p r value x (authenticate site r value x) refused.0 given
              (refused.1) refl)
      ]

  -- A request for a protected route that has no session cookie, or one that AuthenticateToken
  -- refuses, is redirected to the login page, with the cookie cleared where it was looked up, or
  -- refused with 403: AuthenticateToken is all that runs, so the cache and the vehicle API are not
  -- touched.
  pub routes-Turned :
      (r : Request) (x : Exchange W) (p : ProtectedRoute)
      → matched r ≡ protected p
      → IsAnonymous r (security_headers x)
      → Turned r (security_headers x) (routes site parse_url matched not_found r x)
  unfolding routes dispatch serve require_login finish_answer
  routes-Turned r x p chosen anonymous =
      elim (require_same_origin-Screened parse_url (dispatch site parse_url matched not_found) r
        (security_headers x)) [
          | inl (what, post, foreign, refused) ↦ rw refused (inr (inr (what, refl)))
          | inr (passed, local) ↦
              rw (passed, dispatch, chosen)
                (Turned-with_cookie p r r.session_cookie (security_headers x) refl anonymous)
        ]
