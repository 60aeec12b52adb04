-- ===== src/Obs/Middleware/Laws.antt =====
-- What the middleware records of a request to the routes.
use toyotaview.Common.{
  true, ℕ, suc, List, [], ◌∷◌, Str, Result, Duration, ◌≡◌, refl, ap, ◌∙◌, arith,
}
use toyotaview.Smartcar.Http.{Url}
use toyotaview.Web.Guards.{Request}
use toyotaview.Web.Response.{
  Write, header_set, content_type, status, body, json_body, cookie_set, redirected, error_written,
  Site, Exchange,
}
use toyotaview.Web.Routes.{Route, routes}
use toyotaview.Web.Routes.Answers.{part, answers_from, parts, answers, IsServing, count}
use toyotaview.Web.Routes.Laws.{count-routes}
use toyotaview.Obs.Metrics.{Metrics}
use toyotaview.Obs.Middleware.{recorded_status, observe}

-- The status that the client gets: net/http sends the first status line, or 200 with a body that comes
-- before any, and ignores the others.
unfoldable pub sent_status : List Write → ℕ
sent_status [] = 200
sent_status (status code ∷ writes) = code
sent_status (redirected path code ∷ writes) = code
sent_status (error_written message code ∷ writes) = code
sent_status (body bytes ∷ writes) = 200
sent_status (json_body fields ∷ writes) = 200
sent_status (header_set name value ∷ writes) = sent_status writes
sent_status (content_type value ∷ writes) = sent_status writes
sent_status (cookie_set c ∷ writes) = sent_status writes

recorded_status_unanswered :
    (held : ℕ) (writes : List Write)
    → answers_from true (parts writes) ≡ 0
    → recorded_status held writes ≡ held
unfolding recorded_status answers_from parts part
recorded_status_unanswered held [] h = refl
recorded_status_unanswered held (status code ∷ writes) h = absurd (omega (arith, h))
recorded_status_unanswered held (redirected path code ∷ writes) h = absurd (omega (arith, h))
recorded_status_unanswered held (error_written message code ∷ writes) h = absurd (omega (arith, h))
recorded_status_unanswered held (header_set name value ∷ writes) h =
    recorded_status_unanswered held writes h
recorded_status_unanswered held (content_type value ∷ writes) h =
    recorded_status_unanswered held writes h
recorded_status_unanswered held (body bytes ∷ writes) h = recorded_status_unanswered held writes h
recorded_status_unanswered held (json_body fields ∷ writes) h =
    recorded_status_unanswered held writes h
recorded_status_unanswered held (cookie_set c ∷ writes) h = recorded_status_unanswered held writes h

recorded_status-sent :
    (writes : List Write) → answers writes ≡ 1 → recorded_status 200 writes ≡ sent_status writes
unfolding recorded_status answers answers_from parts part sent_status
recorded_status-sent [] h = absurd (omega (arith, h))
recorded_status-sent (status code ∷ writes) h =
    recorded_status_unanswered code writes (omega (arith, h))
recorded_status-sent (redirected path code ∷ writes) h =
    recorded_status_unanswered code writes (omega (arith, h))
recorded_status-sent (error_written message code ∷ writes) h =
    recorded_status_unanswered code writes (omega (arith, h))
recorded_status-sent (body bytes ∷ writes) h =
    recorded_status_unanswered 200 writes (omega (arith, h))
recorded_status-sent (json_body fields ∷ writes) h =
    recorded_status_unanswered 200 writes (omega (arith, h))
recorded_status-sent (header_set name value ∷ writes) h = recorded_status-sent writes h
recorded_status-sent (content_type value ∷ writes) h = recorded_status-sent writes h
recorded_status-sent (cookie_set c ∷ writes) h = recorded_status-sent writes h

module _ {W : Type 0} (site : Site W) (parse_url : Str → Result Url) (matched : Request → Route)
    (not_found : Request → Exchange W → Exchange W) (serving : IsServing site)
    (found : (r : Request) (x : Exchange W) → count (not_found r x) ≡ suc (count x))
    (int_text : ℕ → Str) (pattern path : Request → Str) (elapsed : W → W → Duration) where
  -- Where the templates execute, the connection takes what is written and net/http answers once
  -- where no pattern matches, every request is answered by exactly one status line, with the one that
  -- net/http sends before a body that comes first, and the span
  -- that the middleware ends has the status that the client gets.
  pub observe-routes :
      (r : Request) (x : Exchange W) (m : Metrics)
      → x.writes ≡ []
      → (answers
            (observe int_text pattern path elapsed
              (routes site parse_url matched not_found)
              r
              (x, m)).0.writes
          ≡ 1)
        × ((observe int_text pattern path elapsed
              (routes site parse_url matched not_found)
              r
              (x, m)).2.status_code
            ≡ sent_status
                (observe int_text pattern path elapsed
                  (routes site parse_url matched not_found)
                  r
                  (x, m)).0.writes)
  unfolding observe count answers
  observe-routes r x m fresh =
      let once : answers (routes site parse_url matched not_found r x).writes ≡ 1 =
        count-routes site parse_url matched not_found serving found r x
        ∙ ap (λ ws. suc (answers ws)) fresh in
      (once, recorded_status-sent (routes site parse_url matched not_found r x).writes once)
