-- ===== src/Smartcar/Token/Laws.antt =====
-- What accessToken and doAuthorized promise: the cache holds the token that is handed out, an
-- error never replaces it, a valid token is used without a request.
use toyotaview.Common.{
  ℕ, suc, ◌+◌, ◌*◌, ◌≤◌, ℤ, pos_part, true, Str, String, Result, ok, err, Bool-cases, ◌≡◌, refl,
  subst, inl, inr, arith,
}
use toyotaview.Smartcar.Http.{Request, Net, AccessToken, is_valid}
use toyotaview.Smartcar.Client.{ClientConfig, ClientState, Headers, token_recorded, log, do_request}
use toyotaview.Smartcar.Client.Frame.{do_request-token_cache}
use toyotaview.Smartcar.Client.Counts.{sends, sends-log}
use toyotaview.Smartcar.Client.Laws.{sends-do_request}
use toyotaview.Smartcar.Token.{
  token_request, read_token, request_access_token, finish_token, access_token, with_token,
  do_authorized,
}

module _ {W : Type 0} (net : Net W) (decode_token : Str → Result (Str × ℤ)) (c : ClientConfig) where
  -- What accessToken leaves: on success the cached token is the one that is returned, and on an
  -- error the cache is as it was.
  abbrev pub IsCached : AccessToken → Result Str × ClientState W → Type 0
  IsCached t (ok value, st) = st.token_cache.value ≡ value
  IsCached t (err e, st) = st.token_cache ≡ t

  read_token-state :
      (p : Result (Headers × Str) × ClientState W) → (read_token net decode_token c p).1 ≡ p.1
  unfolding read_token
  read_token-state (err e, st) = refl
  read_token-state (ok (headers, body), st) = refl

  request_access_token-token_cache :
      (st : ClientState W)
      → (request_access_token net decode_token c st).1.token_cache ≡ st.token_cache
  unfolding request_access_token
  request_access_token-token_cache st =
      let build = token_request net decode_token c in
      rw (read_token-state (do_request net c "token_request" build st))
        (do_request-token_cache net c "token_request" build st)

  IsCached-finish_token :
      (t : AccessToken) (p : Result AccessToken × ClientState W)
      → p.1.token_cache ≡ t
      → IsCached t (finish_token net decode_token c p)
  unfolding finish_token log
  IsCached-finish_token t (ok token, st) same = refl
  IsCached-finish_token t (err e, st) same = same

  -- accessToken fills the cache with the token that it returns, and leaves the cache as it was
  -- when it returns an error.
  pub access_token-IsCached :
      (st : ClientState W) → IsCached st.token_cache (access_token net decode_token c st)
  unfolding access_token
  access_token-IsCached st = elim (Bool-cases (is_valid (net.now st.world) st.token_cache)) [
    | inl valid ↦ rw valid refl
    | inr stale ↦ rw stale (
        IsCached-finish_token st.token_cache (request_access_token net decode_token c st)
          (request_access_token-token_cache st))
  ]

  -- After accessToken has returned a token, a call made while that token is valid returns the
  -- same token and changes nothing: it sends no request.
  pub access_token_reuse :
      (st st' : ClientState W) (value : Str)
      → access_token net decode_token c st ≡ (ok value, st')
      → is_valid (net.now st'.world) st'.token_cache ≡ true
      → access_token net decode_token c st' ≡ (ok value, st')
  unfolding access_token
  access_token_reuse st st' value first valid =
      let held : st'.token_cache.value ≡ value =
        subst (IsCached st.token_cache) first (access_token-IsCached st) in
      rw (valid, held) refl

  sends-finish_token :
      (p : Result AccessToken × ClientState W)
      → sends (finish_token net decode_token c p).1.events ≡ sends p.1.events
  unfolding finish_token sends
  sends-finish_token (ok token, st) =
      omega (arith, sends-log (token_recorded "ok") (record st { token_cache = token }))
  sends-finish_token (err e, st) = omega (arith, sends-log (token_recorded "error") st)

  -- The requests that are sent from one state to a later one, at most `n` of them.
  abbrev pub SendsAtMost : ℕ → ClientState W → ClientState W → Type 0
  SendsAtMost n before after =
      (sends before.events ≤ sends after.events) × (sends after.events ≤ sends before.events + n)

  sends-access_token :
      (st : ClientState W)
      → SendsAtMost (suc (pos_part c.max_retries)) st (access_token net decode_token c st).1
  unfolding access_token request_access_token
  sends-access_token st = elim (Bool-cases (is_valid (net.now st.world) st.token_cache)) [
    | inl valid ↦ rw valid (omega arith, omega arith)
    | inr stale ↦
        let build = token_request net decode_token c in
        let sent = do_request net c "token_request" build st in
        rw (stale, sends-finish_token (read_token net decode_token c sent), read_token-state sent)
          (sends-do_request net c "token_request" build st)
  ]

  sends-with_token :
      (operation : String) (build : Str → Result Request) (p : Result Str × ClientState W)
      → SendsAtMost
          (suc (pos_part c.max_retries))
          p.1
          (with_token net decode_token c operation build p).1
  unfolding with_token
  sends-with_token operation build (err e, st) = (omega arith, omega arith)
  sends-with_token operation build (ok token, st) =
      sends-do_request net c operation (build token) st

  -- Whatever the network does, a call that needs a token ends and sends at most twice as many
  -- requests as one round of attempts: the configured number of retries plus one for the token,
  -- and as many for the call itself.
  pub sends-do_authorized :
      (operation : String) (build : Str → Result Request) (st : ClientState W)
      → SendsAtMost
          (2 * suc (pos_part c.max_retries))
          st
          (do_authorized net decode_token c operation build st).1
  unfolding do_authorized
  sends-do_authorized operation build st =
      let p = access_token net decode_token c st in
      let first = sends-access_token st in
      let second = sends-with_token operation build p in
      (omega (arith, first.0, second.0), omega (arith, first.1, second.1))
