-- ===== src/Smartcar/Client/Rounds.antt =====
-- What one round of the retry loop of `do` sends and records.
use toyotaview.Common.{
  ℕ, suc, ◌+◌, ◌<◌, ℤ, pos, negsuc, pos_part, ltb_ℤ, Bool, true, ◌&&◌, Option, none, some, List,
  Str, String, GoError, wrapped, Result, ok, err, Bool-cases, Option-cases, ◌≡◌, inl, inr, arith,
}
use toyotaview.Smartcar.Http.{Request, Response, Net}
use toyotaview.Smartcar.Retry.{should_retry_status, should_retry_error}
use toyotaview.Smartcar.Client.{
  ClientConfig, ClientState, ClientEvent, request_recorded, retry_warned, Headers, Round, done,
  again, log, judge, fail_read, after_read, after_send, api_error_of, is_success, Label,
  transport_error, code_label, body_limit,
}
use toyotaview.Smartcar.Client.Counts.{sends, records, sends-log, records-log}

retry_room : (most : ℤ) (attempt : ℕ) → ltb_ℤ (pos attempt) most ≡ true → attempt < pos_part most
retry_room (pos n) attempt h = ground arith
retry_room (negsuc n) attempt h = absurd (ground arith)

-- What a round adds to the events once its request is sent: a final round records the request
-- once, and a retry records nothing and is asked for only below the configured number of retries.
abbrev pub Judged : ℤ → ℕ → List ClientEvent → List ClientEvent → Round → Type 0
Judged most attempt es es' (done r) = (sends es' ≡ sends es) × (records es' ≡ suc (records es))
Judged most attempt es es' (again headers) =
    (sends es' ≡ sends es) × (records es' ≡ records es) × (attempt < pos_part most)

module _ {W : Type 0} where
  Judged-done :
      (most : ℤ) (attempt : ℕ) (operation : String) (label : Label) (e : Option GoError)
      (r : Result (Headers × Str)) (st : ClientState W)
      → Judged most attempt st.events (log (request_recorded operation label e) st).events (done r)
  unfolding sends records
  Judged-done most attempt operation label e r st = (
    omega (arith, sends-log (request_recorded operation label e) st),
    omega (arith, records-log (request_recorded operation label e) st),
  )

  Judged-again :
      (most : ℤ) (attempt n : ℕ) (operation : String) (headers : Option Headers)
      (st : ClientState W)
      → ltb_ℤ (pos attempt) most ≡ true
      → Judged most attempt st.events (log (retry_warned operation n) st).events (again headers)
  unfolding sends records
  Judged-again most attempt n operation headers st room = (
    omega (arith, sends-log (retry_warned operation n) st),
    omega (arith, records-log (retry_warned operation n) st),
    retry_room most attempt room,
  )

and-true : (a b : Bool) → (a && b) ≡ true → b ≡ true
and-true a b h = ground arith

module _ {W : Type 0} (net : Net W) (c : ClientConfig) (operation : String) where
  abbrev pub RoundJudged : ℕ → ClientState W → Round × ClientState W → Type 0
  RoundJudged attempt st p = Judged c.max_retries attempt st.events p.1.events p.0

  judge-Judged :
      (req : Request) (attempt : ℕ) (resp : Response) (body : Str) (st : ClientState W)
      → RoundJudged attempt st (judge net c operation req attempt resp body st)
  unfolding judge
  judge-Judged req attempt resp body st = elim (Bool-cases (is_success resp.status)) [
    | inl success ↦ rw success (
        Judged-done c.max_retries attempt operation (code_label resp.status) none
          (ok (resp.headers, body)) st)
    | inr failure ↦
        elim (Bool-cases (should_retry_status resp.status && ltb_ℤ (pos attempt) c.max_retries)) [
          | inl retry ↦
              rw (failure, retry)
                (Judged-again c.max_retries attempt (attempt + 1) operation (some resp.headers) st
                  (and-true _ _ retry))
          | inr final ↦
              rw (failure, final)
                (Judged-done c.max_retries attempt operation (code_label resp.status)
                  (some (api_error_of net c operation req resp body))
                  (err (api_error_of net c operation req resp body)) st)
        ]
  ]

  after_read-Judged :
      (req : Request) (attempt : ℕ) (resp : Response) (r : Result Str) (st : ClientState W)
      → RoundJudged attempt st (after_read net c operation req attempt resp r st)
  unfolding after_read fail_read
  after_read-Judged req attempt resp (err e) st =
      Judged-done c.max_retries attempt operation (code_label resp.status)
        (some (wrapped "read response body" e)) (err (wrapped "read response body" e)) st
  after_read-Judged req attempt resp (ok body) st = elim (Option-cases resp.close_error) [
    | inl closed ↦ rw (closed, after_read) (judge-Judged req attempt resp body st)
    | inr (e, open_still) ↦
        rw (open_still, after_read)
          (Judged-done c.max_retries attempt operation (code_label resp.status)
            (some (wrapped "close response body" e)) (err (wrapped "close response body" e)) st)
  ]

  pub after_send-Judged :
      (req : Request) (attempt : ℕ) (r : Result Response) (st : ClientState W)
      → RoundJudged attempt st (after_send net c operation req attempt r st)
  unfolding after_send
  after_send-Judged req attempt (err e) st =
      elim (Bool-cases (should_retry_error e && ltb_ℤ (pos attempt) c.max_retries)) [
        | inl retry ↦ rw retry (
            Judged-again c.max_retries attempt (attempt + 1) operation none st (and-true _ _ retry))
        | inr final ↦
            rw final
              (Judged-done c.max_retries attempt operation transport_error (some e) (err e) st)
      ]
  after_send-Judged req attempt (ok resp) st =
      after_read-Judged req attempt resp (resp.read_body (body_limit resp)) st
