-- ===== src/Smartcar/Client/Laws.antt =====
-- The retry loop of `do` ends, with a bounded number of requests sent and recorded.
use toyotaview.Common.{
  ℕ, zero, suc, ◌+◌, ◌≤◌, ◌<◌, pos_part, Bool, Option, some, Str, String, GoError, Result, ok, err,
  Bool-cases, ◌≡◌, refl, ◌∙◌, inl, inr, arith,
}
use toyotaview.Smartcar.Http.{Request, Net}
use toyotaview.Smartcar.Retry.{retry_delay}
use toyotaview.Smartcar.Client.{
  ClientConfig, ClientState, sent, Headers, Round, done, again, log, round, continue_with, do_loop,
  do_request,
}
use toyotaview.Smartcar.Client.Counts.{sends, records, sends-log, records-log}
use toyotaview.Smartcar.Client.Rounds.{Judged, RoundJudged, after_send-Judged}

module _ {W : Type 0} (net : Net W) (c : ClientConfig) (operation : String) where
  -- What the loop leaves: at most `fuel` more requests sent, and the request recorded once, or not
  -- at all where the context ended during a wait.
  pub record IsLooped (fuel : ℕ) (st st' : ClientState W) : Type 0 where
    pub few : sends st'.events ≤ sends st.events + fuel
    pub sent_some : sends st.events < sends st'.events
    pub once : records st'.events ≤ records st.events + 1

  sends-sent :
      (req : Request) (w : W) (st : ClientState W)
      → (sends (log (sent req) (record st { world = w })).events ≡ suc (sends st.events))
        × (records (log (sent req) (record st { world = w })).events ≡ records st.events)
  unfolding sends records
  sends-sent req w st = (
    omega (arith, sends-log (sent req) (record st { world = w })),
    omega (arith, records-log (sent req) (record st { world = w })),
  )

  -- What the loop returns from some state.
  abbrev Ends : ℕ → ClientState W → Option (Result (Headers × Str) × ClientState W) → Type 0
  Ends fuel st o =
      (r : Result (Headers × Str) × ClientState W) × (o ≡ some r) × IsLooped fuel st r.1

  IsLooped-trans :
      (fuel : ℕ) (before after last : ClientState W)
      → sends after.events ≡ suc (sends before.events)
      → records after.events ≡ records before.events
      → IsLooped fuel after last
      → IsLooped (suc fuel) before last
  IsLooped-trans fuel before after last one same rest = record {
    few = omega (arith, rest.few, one);
    sent_some = omega (arith, rest.sent_some, one);
    once = omega (arith, rest.once, same);
  }

  continue_with-Ends :
      (fuel attempt : ℕ) (next : ClientState W → Option (Result (Headers × Str) × ClientState W))
      (before mid : ClientState W) (p : Round × ClientState W)
      → sends mid.events ≡ suc (sends before.events)
      → records mid.events ≡ records before.events
      → Judged c.max_retries attempt mid.events p.1.events p.0
      → ((st : ClientState W) → attempt < pos_part c.max_retries → Ends fuel st (next st))
      → Ends (suc fuel) before (continue_with net c operation attempt next p)
  unfolding continue_with
  continue_with-Ends fuel attempt next before mid (done r, st) one same judged total = (
    (r, st),
    refl,
    record {
      few = omega (arith, judged.0, one);
      sent_some = omega (arith, judged.0, one);
      once = omega (arith, judged.1, same);
    },
  )
  continue_with-Ends fuel attempt next before mid (again headers, st) one same judged total =
      let ended : Bool = (net.wait (retry_delay net headers attempt st.world) st.world).0 in
      let w : W = (net.wait (retry_delay net headers attempt st.world) st.world).1 in
      let waited : ClientState W = record st { world = w } in
      let stopped : IsLooped (suc fuel) before waited = record {
        few = omega (arith, judged.0, one);
        sent_some = omega (arith, judged.0, one);
        once = omega (arith, judged.1, same);
      } in
      elim (Bool-cases ended) [
        | inl stop ↦ rw stop ((err (net.context_error w), waited), refl, stopped)
        | inr go ↦ rw go (
            let rest = total waited judged.2 in
            (
              rest.0,
              rest.1,
              IsLooped-trans fuel before waited rest.0.1 (judged.0 ∙ one) (judged.1 ∙ same) rest.2,
            ))
      ]

  round-Judged :
      (req : Request) (attempt : ℕ) (st : ClientState W)
      → (mid : ClientState W) × (sends mid.events ≡ suc (sends st.events))
        × (records mid.events ≡ records st.events)
        × RoundJudged net c operation attempt mid (round net c operation (ok req) attempt st)
  unfolding round
  round-Judged req attempt st =
      let r = (net.send req st.world).0 in
      let w = (net.send req st.world).1 in
      let mid : ClientState W = log (sent req) (record st { world = w }) in
      (
        mid,
        (sends-sent req w st).0,
        (sends-sent req w st).1,
        after_send-Judged net c operation req attempt r mid,
      )

  do_loop-Ends :
      (fuel attempt : ℕ) (req : Request) (st : ClientState W)
      → pos_part c.max_retries < fuel + attempt
      → attempt ≤ pos_part c.max_retries
      → Ends fuel st (do_loop net c operation fuel (ok req) attempt st)
  unfolding do_loop
  do_loop-Ends zero attempt req st enough room = absurd (omega (arith, enough, room))
  do_loop-Ends (suc fuel) attempt req st enough room =
      let r = round-Judged req attempt st in
      continue_with-Ends fuel attempt (do_loop net c operation fuel (ok req) (suc attempt)) st r.0
        (round net c operation (ok req) attempt st) r.1 r.2 r.3
        (λ next low.
          do_loop-Ends fuel (suc attempt) req next (omega (arith, enough)) (omega (arith, low)))

  -- Whatever the network does, `do` ends, with fuel for one round and one more for each configured
  -- retry: it sends its request at least once, at most once more than the number of retries, and
  -- records it in the metrics at most once.
  pub do_request-IsLooped :
      (req : Request) (st : ClientState W)
      → (do_loop net c operation (suc (pos_part c.max_retries)) (ok req) 0 st
          ≡ some (do_request net c operation (ok req) st))
        × IsLooped (suc (pos_part c.max_retries)) st (do_request net c operation (ok req) st).1
  unfolding do_request
  do_request-IsLooped req st =
      let most = pos_part c.max_retries in
      let ends = do_loop-Ends (suc most) 0 req st (omega arith) (omega arith) in
      rw (do_request, ends.1) (refl, ends.2)

  -- A request that cannot be built is not sent.
  pub do_request-err :
      (e : GoError) (st : ClientState W) → do_request net c operation (err e) st ≡ (err e, st)
  unfolding do_request do_loop round continue_with
  do_request-err e st = refl

  pub sends-do_request :
      (build : Result Request) (st : ClientState W)
      → (sends st.events ≤ sends (do_request net c operation build st).1.events)
        × (sends (do_request net c operation build st).1.events
            ≤ sends st.events + suc (pos_part c.max_retries))
  sends-do_request (err e) st = rw (do_request-err e st) (omega arith, omega arith)
  sends-do_request (ok req) st =
      let looped = (do_request-IsLooped req st).1 in (omega (arith, looped.sent_some), looped.few)
