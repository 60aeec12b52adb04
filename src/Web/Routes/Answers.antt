-- ===== src/Web/Routes/Answers.antt =====
-- How often a request is answered: the status lines that the writes of the handlers of
-- internal/web/handlers.go and of the routes ask for, with the one that net/http sends by itself where
-- a body comes before any.
use toyotaview.Common.{
  ℕ, suc, Bool, true, false, Option, none, some, List, [], ◌∷◌, ◌++◌, Str, String, GoError, ok, ◌<◌,
  arith, ◌≡◌, refl, ap, ◌∙◌,
}
use toyotaview.App.Types.{State}
use toyotaview.Web.Response.{
  Page, Site, Exchange, Write, header_set, content_type, status, body, json_body, cookie_set,
  redirected, error_written, write, log, in_world, in_app, redirect, write_json, log_error,
  or_plain, send, render, render_error, render_login_error, render_signup_error,
}

-- What a write does to the response: it sends a status line, or a part of the body, or it only sets a
-- header.
pub data Part : Type 0 where
  line payload header : Part

unfoldable pub part : Write → Part
part (status code) = line
part (redirected path code) = line
part (error_written message code) = line
part (header_set name value) = header
part (content_type value) = header
part (body bytes) = payload
part (json_body fields) = payload
part (cookie_set c) = header

-- The status lines of a response, once it is known whether one is sent. A body sends one itself if
-- none is.
unfoldable pub answers_from : Bool → List Part → ℕ
answers_from started [] = 0
answers_from started (line ∷ ps) = suc (answers_from true ps)
answers_from true (payload ∷ ps) = answers_from true ps
answers_from false (payload ∷ ps) = suc (answers_from true ps)
answers_from started (header ∷ ps) = answers_from started ps

unfoldable pub parts : List Write → List Part
parts [] = []
parts (e ∷ ws) = part e ∷ parts ws

unfoldable pub answers : List Write → ℕ
unfolding answers_from parts
answers ws = answers_from false (parts ws)

parts-append : (us ws : List Write) → parts (us ++ ws) ≡ parts us ++ parts ws
unfolding parts
parts-append [] ws = refl
parts-append (e ∷ us) ws = ap (λ ps. part e ∷ ps) (parts-append us ws)

answers_from-line :
    (started : Bool) (ps : List Part)
    → answers_from started (ps ++ line ∷ []) ≡ suc (answers_from started ps)
unfolding answers_from
answers_from-line started [] = refl
answers_from-line started (line ∷ ps) = ap suc (answers_from-line true ps)
answers_from-line true (payload ∷ ps) = answers_from-line true ps
answers_from-line false (payload ∷ ps) = ap suc (answers_from-line true ps)
answers_from-line started (header ∷ ps) = answers_from-line started ps

answers_from-header :
    (started : Bool) (ps : List Part)
    → answers_from started (ps ++ header ∷ []) ≡ answers_from started ps
unfolding answers_from
answers_from-header started [] = refl
answers_from-header started (line ∷ ps) = ap suc (answers_from-header true ps)
answers_from-header true (payload ∷ ps) = answers_from-header true ps
answers_from-header false (payload ∷ ps) = ap suc (answers_from-header true ps)
answers_from-header started (header ∷ ps) = answers_from-header started ps

answers_from-payload :
    (ps : List Part) → answers_from true (ps ++ payload ∷ []) ≡ answers_from true ps
unfolding answers_from
answers_from-payload [] = refl
answers_from-payload (line ∷ ps) = ap suc (answers_from-payload ps)
answers_from-payload (payload ∷ ps) = answers_from-payload ps
answers_from-payload (header ∷ ps) = answers_from-payload ps

answers_from-payload_after :
    (ps : List Part)
    → 0 < answers_from false ps
    → answers_from false (ps ++ payload ∷ []) ≡ answers_from false ps
unfolding answers_from
answers_from-payload_after [] h = absurd (omega (arith, h))
answers_from-payload_after (line ∷ ps) h = ap suc (answers_from-payload ps)
answers_from-payload_after (payload ∷ ps) h = ap suc (answers_from-payload ps)
answers_from-payload_after (header ∷ ps) h = answers_from-payload_after ps h

answers-snoc_answer :
    (ws : List Write) (e : Write) → part e ≡ line → answers (ws ++ e ∷ []) ≡ suc (answers ws)
unfolding answers parts
answers-snoc_answer ws e h = rw (parts-append ws (e ∷ []), h) (answers_from-line false (parts ws))

answers-snoc_other :
    (ws : List Write) (e : Write) → part e ≡ header → answers (ws ++ e ∷ []) ≡ answers ws
unfolding answers parts
answers-snoc_other ws e h = rw (parts-append ws (e ∷ []), h) (answers_from-header false (parts ws))

answers-snoc_body :
    (ws : List Write) (e : Write)
    → part e ≡ payload
    → 0 < answers ws
    → answers (ws ++ e ∷ []) ≡ answers ws
unfolding answers parts
answers-snoc_body ws e h begun =
    rw (parts-append ws (e ∷ []), h) (answers_from-payload_after (parts ws) begun)

-- The templates execute, and the connection takes what is written.
pub record IsServing {W : Type 0} (site : Site W) : Type 0 where
  pub executes : (p : Page) → (bytes : Str) × (site.execute p ≡ ok bytes)
  pub delivers : (bytes : Str) (w : W) → (site.write_body bytes w).0 ≡ none

module _ {W : Type 0} where
  -- The answers of an exchange.
  unfoldable pub count : Exchange W → ℕ
  count x = answers x.writes

  pub count-write_answer :
      (e : Write) (x : Exchange W) → part e ≡ line → count (write e x) ≡ suc (count x)
  unfolding count write
  count-write_answer e x h = answers-snoc_answer x.writes e h

  pub count-write_other :
      (e : Write) (x : Exchange W) → part e ≡ header → count (write e x) ≡ count x
  unfolding count write
  count-write_other e x h = answers-snoc_other x.writes e h

  -- A body after a status line sends none.
  count-write_body :
      (e : Write) (x : Exchange W) (n : ℕ)
      → part e ≡ payload
      → count x ≡ suc n
      → count (write e x) ≡ suc n
  unfolding count write
  count-write_body e x n h begun = answers-snoc_body x.writes e h (omega (arith, begun)) ∙ begun

  pub count-log : (what : String) (e : GoError) (x : Exchange W) → count (log what e x) ≡ count x
  unfolding count log
  count-log what e x = refl

  pub count-in_world :
      {A : Type 0} (f : W → A × W) (x : Exchange W) → count (in_world f x).1 ≡ count x
  unfolding count in_world
  count-in_world f x = refl

  pub count-in_app :
      {A : Type 0} (f : State W → A × State W) (x : Exchange W) → count (in_app f x).1 ≡ count x
  unfolding count in_app
  count-in_app f x = refl

  pub count-redirect :
      (path : Str) (code : ℕ) (x : Exchange W) → count (redirect path code x) ≡ suc (count x)
  unfolding redirect part
  count-redirect path code x = count-write_answer (redirected path code) x refl

  pub count-write_json :
      (fields : List (String × Str)) (x : Exchange W) → count (write_json fields x) ≡ suc (count x)
  unfolding write_json part
  count-write_json fields x =
      let typed : Exchange W = write (content_type "application/json") x in
      count-write_body (json_body fields) (write (status 200) typed) (count x) refl (
        count-write_answer (status 200) typed refl
        ∙ ap suc (count-write_other (content_type "application/json") x refl))

  pub count-log_error :
      (what : String) (p : Option GoError × Exchange W) → count (log_error what p) ≡ count p.1
  unfolding log_error
  count-log_error what (none, x) = refl
  count-log_error what (some e, x) = count-log what e x

  or_plain-none :
      (what : String) (message : Str) (code : ℕ) (p : Option GoError × Exchange W)
      → p.0 ≡ none
      → or_plain what message code p ≡ p.1
  unfolding or_plain
  or_plain-none what message code (none, x) h = refl
  or_plain-none what message code (some e, x) h = absurd (cc h)

module _ {W : Type 0} (site : Site W) (serving : IsServing site) where
  -- An answer is sent, and there is no error.
  abbrev IsSent : Exchange W → Option GoError × Exchange W → Type 0
  IsSent x p = (p.0 ≡ none) × (count p.1 ≡ suc (count x))

  send-IsSent : (code : ℕ) (bytes : Str) (x : Exchange W) → IsSent x (send site code (ok bytes) x)
  unfolding send in_world part
  send-IsSent code bytes x =
      let typed : Exchange W = write (content_type "text/html; charset=utf-8") x in
      let begun : Exchange W = write (status code) typed in
      let sent : Exchange W = write (body bytes) begun in
      (
        serving.delivers bytes sent.app.world,
        count-in_world (site.write_body bytes) sent
            ∙ count-write_body (body bytes) begun (count x) refl (
                count-write_answer (status code) typed refl
                ∙ ap suc (count-write_other (content_type "text/html; charset=utf-8") x refl)),
      )

  pub render-IsSent : (code : ℕ) (page : Page) (x : Exchange W) → IsSent x (render site code page x)
  unfolding render
  render-IsSent code page x =
      let known = serving.executes page in rw (known.1) (send-IsSent code known.0 x)

  pub count-shown :
      (what : String) (code : ℕ) (page : Page) (x : Exchange W)
      → count (log_error what (render site code page x)) ≡ suc (count x)
  count-shown what code page x =
      count-log_error what (render site code page x) ∙ (render-IsSent code page x).1

  pub count-or_plain :
      (what : String) (message : Str) (code : ℕ) (page : Page) (x : Exchange W)
      → count (or_plain what message code (render site code page x)) ≡ suc (count x)
  count-or_plain what message code page x =
      let sent = render-IsSent code page x in
      ap count (or_plain-none what message code (render site code page x) sent.0) ∙ sent.1

  pub count-render_error :
      (code : ℕ) (message : Str) (x : Exchange W)
      → count (render_error site code message x) ≡ suc (count x)
  unfolding render_error
  count-render_error code message x = count-or_plain "render error page" message code _ x

  pub count-render_login_error :
      (code : ℕ) (message username : Str) (x : Exchange W)
      → count (render_login_error site code message username x) ≡ suc (count x)
  unfolding render_login_error
  count-render_login_error code message username x =
      count-or_plain "render auth error" message code _ x

  pub count-render_signup_error :
      (code : ℕ) (message username : Str) (x : Exchange W)
      → count (render_signup_error site code message username x) ≡ suc (count x)
  unfolding render_signup_error
  count-render_signup_error code message username x =
      count-or_plain "render auth error" message code _ x
