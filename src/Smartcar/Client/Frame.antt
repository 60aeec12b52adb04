-- ===== src/Smartcar/Client/Frame.antt =====
-- What `do` leaves alone: the token cache.
use toyotaview.Common.{
  ℕ, zero, suc, pos, pos_part, ltb_ℤ, ◌&&◌, Option, none, some, Str, String, Result, ok, err,
  Bool-cases, Option-cases, ◌≡◌, refl, ◌∙◌, subst, inl, inr,
}
use toyotaview.Smartcar.Http.{Request, Response, Net, AccessToken}
use toyotaview.Smartcar.Retry.{should_retry_status, should_retry_error, retry_delay}
use toyotaview.Smartcar.Client.{
  ClientConfig, ClientState, Headers, Round, done, again, log, judge, fail_read, after_read,
  after_send, round, continue_with, do_loop, do_request, is_success, body_limit, sent,
}

-- Every outcome keeps the tokens of the state it starts from.
abbrev Keeps : {W : Type 0} → AccessToken → Option (Result (Headers × Str) × ClientState W) → Type 0
Keeps t none = ◌≡◌ {A = AccessToken} t t
Keeps t (some r) = r.1.token_cache ≡ t

Keeps-some :
    {W : Type 0} {t : AccessToken} {o : Option (Result (Headers × Str) × ClientState W)}
    {r : Result (Headers × Str) × ClientState W}
    → o ≡ some r
    → Keeps t o
    → r.1.token_cache ≡ t
Keeps-some {t = t} ended kept = subst (Keeps t) ended kept

module _ {W : Type 0} (net : Net W) (c : ClientConfig) (operation : String) where
  judge-token_cache :
      (req : Request) (attempt : ℕ) (resp : Response) (body : Str) (st : ClientState W)
      → (judge net c operation req attempt resp body st).1.token_cache ≡ st.token_cache
  unfolding judge log
  judge-token_cache req attempt resp body st = elim (Bool-cases (is_success resp.status)) [
    | inl success ↦ rw success refl
    | inr failure ↦
        elim (Bool-cases (should_retry_status resp.status && ltb_ℤ (pos attempt) c.max_retries)) [
          | inl retry ↦ rw (failure, retry) refl
          | inr final ↦ rw (failure, final) refl
        ]
  ]

  after_read-token_cache :
      (req : Request) (attempt : ℕ) (resp : Response) (r : Result Str) (st : ClientState W)
      → (after_read net c operation req attempt resp r st).1.token_cache ≡ st.token_cache
  unfolding after_read fail_read log
  after_read-token_cache req attempt resp (err e) st = refl
  after_read-token_cache req attempt resp (ok body) st = elim (Option-cases resp.close_error) [
    | inl closed ↦ rw (closed, after_read) (judge-token_cache req attempt resp body st)
    | inr (e, open_still) ↦ rw (open_still, after_read) refl
  ]

  after_send-token_cache :
      (req : Request) (attempt : ℕ) (r : Result Response) (st : ClientState W)
      → (after_send net c operation req attempt r st).1.token_cache ≡ st.token_cache
  unfolding after_send log
  after_send-token_cache req attempt (err e) st =
      elim (Bool-cases (should_retry_error e && ltb_ℤ (pos attempt) c.max_retries)) [
        | inl retry ↦ rw retry refl
        | inr final ↦ rw final refl
      ]
  after_send-token_cache req attempt (ok resp) st =
      after_read-token_cache req attempt resp (resp.read_body (body_limit resp)) st

  round-token_cache :
      (build : Result Request) (attempt : ℕ) (st : ClientState W)
      → (round net c operation build attempt st).1.token_cache ≡ st.token_cache
  unfolding round log
  round-token_cache (err e) attempt st = refl
  round-token_cache (ok req) attempt st =
      after_send-token_cache req attempt (net.send req st.world).0
        (log (sent req) (record st { world = (net.send req st.world).1 }))

  Keeps-continue_with :
      (attempt : ℕ) (next : ClientState W → Option (Result (Headers × Str) × ClientState W))
      (p : Round × ClientState W) (t : AccessToken)
      → p.1.token_cache ≡ t
      → ((st : ClientState W) → st.token_cache ≡ t → Keeps t (next st))
      → Keeps t (continue_with net c operation attempt next p)
  unfolding continue_with
  Keeps-continue_with attempt next (done r, st) t same rest = same
  Keeps-continue_with attempt next (again headers, st) t same rest =
      let w = (net.wait (retry_delay net headers attempt st.world) st.world).1 in
      elim (Bool-cases (net.wait (retry_delay net headers attempt st.world) st.world).0) [
        | inl stop ↦ rw stop same
        | inr go ↦ rw go (rest (record st { world = w }) same)
      ]

  Keeps-do_loop :
      (fuel : ℕ) (build : Result Request) (attempt : ℕ) (st : ClientState W) (t : AccessToken)
      → st.token_cache ≡ t
      → Keeps t (do_loop net c operation fuel build attempt st)
  unfolding do_loop
  Keeps-do_loop zero build attempt st t same = refl
  Keeps-do_loop (suc fuel) build attempt st t same =
      Keeps-continue_with attempt (do_loop net c operation fuel build (suc attempt))
        (round net c operation build attempt st) t (round-token_cache build attempt st ∙ same)
        (λ next kept. Keeps-do_loop fuel build (suc attempt) next t kept)

  -- Whatever the network does, `do` leaves the token cache as it was.
  pub do_request-token_cache :
      (build : Result Request) (st : ClientState W)
      → (do_request net c operation build st).1.token_cache ≡ st.token_cache
  unfolding do_request
  do_request-token_cache build st =
      let kept = Keeps-do_loop (suc (pos_part c.max_retries)) build 0 st st.token_cache refl in
      elim (Option-cases (do_loop net c operation (suc (pos_part c.max_retries)) build 0 st)) [
        | inl out ↦ rw (do_request, out) refl
        | inr (r, ended) ↦ rw (do_request, ended) (Keeps-some ended kept)
      ]
