-- ===== src/Web/Guards/Laws.antt =====
-- What gets past the guards.
use toyotaview.Common.{
  Bool, true, false, Option, none, some, Str, str, String, str_eq, str_eq_iff, [], ◌∷◌, is_empty,
  Result, ok, err, Bool-cases, Result-cases, ◌≡◌, refl, ◌⊎◌, inl, inr,
}
use toyotaview.Common.Text.{trim_space, skip_space}
use toyotaview.Smartcar.Http.{Url}
use toyotaview.Auth.Types.{Session}
use toyotaview.Web.Guards.{
  Request, Answer, forbidden, to_login, same_origin, require_same_origin, after_authenticate,
  with_cookie, require_login,
}

module _ {W A : Type 0} (authenticate_token : Str → W → Result Session × W)
    (next : Request → W → Answer A × W) where
  -- A request that was let through: its cookie authenticated, and the handler answered it in the
  -- state that the authentication left.
  pub record IsAdmitted (r : Request) (w : W) (out : Answer A × W) : Type 0 where
    pub value : Str
    pub cookie : r.session_cookie ≡ some value
    pub session : Session
    pub after : W
    pub authenticated : authenticate_token value w ≡ (ok session, after)
    pub handled : next r after ≡ out

  -- The outcome of the guard: a redirect to the login page, or an admission.
  abbrev pub Guarded : Request → W → Answer A × W → Type 0
  Guarded r w out = ((cleared : Bool) × (out.0 ≡ to_login cleared)) ⊎ IsAdmitted r w out

  Guarded-after_authenticate :
      (r : Request) (value : Str) (w : W) (p : Result Session × W)
      → r.session_cookie ≡ some value
      → authenticate_token value w ≡ p
      → Guarded r w (after_authenticate authenticate_token next r p)
  unfolding after_authenticate
  Guarded-after_authenticate r value w (err e, after) cookie known = inl (true, refl)
  Guarded-after_authenticate r value w (ok session, after) cookie known = inr (record {
    value = value;
    cookie = cookie;
    session = session;
    after = after;
    authenticated = known;
    handled = refl;
  })

  Guarded-with_cookie :
      (r : Request) (o : Option Str) (w : W)
      → r.session_cookie ≡ o
      → Guarded r w (with_cookie authenticate_token next r o w)
  unfolding with_cookie
  Guarded-with_cookie r none w cookie = inl (false, refl)
  Guarded-with_cookie r (some value) w cookie = elim (Bool-cases (is_empty (trim_space value))) [
    | inl blank ↦ rw blank (inl (false, refl))
    | inr shown ↦
        rw shown (Guarded-after_authenticate r value w (authenticate_token value w) cookie refl)
  ]

  -- Behind RequireLogin the handler answers only requests whose session cookie authenticates;
  -- every other request is redirected to the login page.
  pub require_login-Guarded :
      (r : Request) (w : W) → Guarded r w (require_login authenticate_token next r w)
  unfolding require_login
  require_login-Guarded r w = Guarded-with_cookie r r.session_cookie w refl

blank_empty : (s : Str) → is_empty s ≡ true → is_empty (trim_space s) ≡ true
unfolding trim_space skip_space
blank_empty [] h = refl
blank_empty (c ∷ s) h = absurd (cc h)

module _ (parse_url : Str → Result Url) where
  -- A header that names the host of the request, or is blank.
  abbrev pub IsSameHost : Request → Str → Type 0
  IsSameHost r candidate =
      (is_empty (trim_space candidate) ≡ true)
      ⊎ ((u : Url) × (parse_url candidate ≡ ok u) × (u.host ≡ r.host))

  same_origin-IsSameHost :
      (r : Request) (candidate : Str)
      → same_origin parse_url r candidate ≡ true
      → IsSameHost r candidate
  unfolding same_origin
  same_origin-IsSameHost r candidate h = elim (Bool-cases (is_empty (trim_space candidate))) [
    | inl blank ↦ inl blank
    | inr shown ↦ elim (Result-cases (parse_url candidate)) [
      | inl (u, read) ↦
          inr (u, read, (str_eq_iff u.host r.host).0 (rw (shown, read, same_origin) at h))
      | inr (e, bad) ↦ absurd (cc (rw (shown, bad, same_origin) at h))
    ]
  ]

  IsSameHost-same_origin :
      (r : Request) (candidate : Str)
      → IsSameHost r candidate
      → same_origin parse_url r candidate ≡ true
  unfolding same_origin
  IsSameHost-same_origin r candidate (inl blank) = rw blank refl
  IsSameHost-same_origin r candidate (inr (u, read, host)) =
      elim (Bool-cases (is_empty (trim_space candidate))) [
        | inl blank ↦ rw blank refl
        | inr shown ↦ rw (shown, read, same_origin) ((str_eq_iff u.host r.host).1 host)
      ]

  -- A header that is refused names another host.
  IsForeign :
      (r : Request) (candidate : Str)
      → same_origin parse_url r candidate ≡ false
      → ¬ (IsSameHost r candidate)
  IsForeign r candidate foreign near = cc (foreign, IsSameHost-same_origin r candidate near)

  module _ {W A : Type 0} (next : Request → W → Answer A × W) where
    -- The outcome of RequireSameOrigin: a refusal of a POST from another host in the same state, or
    -- the handler's answer.
    abbrev pub Screened : Request → W → Answer A × W → Type 0
    Screened r w out =
        ((what : String) × (r.method ≡ str "POST")
          × (¬ (IsSameHost r (r.header "Origin") × IsSameHost r (r.header "Referer")))
          × (out ≡ (forbidden what, w)))
        ⊎ ((out ≡ next r w)
            × (r.method ≡ str "POST"
                → IsSameHost r (r.header "Origin") × IsSameHost r (r.header "Referer")))

    -- Behind RequireSameOrigin the handler answers a POST only if its Origin and its Referer each
    -- are blank or name the host of the request; any other POST is refused and changes nothing.
    pub require_same_origin-Screened :
        (r : Request) (w : W) → Screened r w (require_same_origin parse_url next r w)
    unfolding require_same_origin
    require_same_origin-Screened r w =
        let origin : Str = r.header "Origin" in
        let referer : Str = r.header "Referer" in
        elim (Bool-cases (str_eq r.method (str "POST"))) [
          | inr other ↦
              rw other
                (inr (refl, λ e. absurd (cc (other, (str_eq_iff r.method (str "POST")).1 e))))
          | inl post ↦
              let is_post : r.method ≡ str "POST" = (str_eq_iff r.method (str "POST")).0 post in
              elim (Bool-cases (same_origin parse_url r origin)) [
                | inr foreign ↦
                    rw (post, foreign)
                      (inl (
                        "origin mismatch",
                        is_post,
                        λ near. IsForeign r origin foreign near.0,
                        refl,
                      ))
                | inl local ↦
                    let first = same_origin-IsSameHost r origin local in
                    elim (Bool-cases (is_empty referer)) [
                      | inl absent ↦
                          rw (post, local, absent)
                            (inr (refl, λ e. (first, inl (blank_empty referer absent))))
                      | inr present ↦ elim (Bool-cases (same_origin parse_url r referer)) [
                        | inr foreign ↦
                            rw (post, local, present, foreign)
                              (inl (
                                "referer mismatch",
                                is_post,
                                λ near. IsForeign r referer foreign near.1,
                                refl,
                              ))
                        | inl near ↦
                            rw (post, local, present, near)
                              (inr (refl, λ e. (first, same_origin-IsSameHost r referer near)))
                      ]
                    ]
              ]
        ]
