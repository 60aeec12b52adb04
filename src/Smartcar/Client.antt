-- ===== src/Smartcar/Client.antt =====
-- internal/smartcar/client.go: requests with retries, and the access token.
pub mod Counts
pub mod Rounds
pub mod Laws
pub mod Frame
use toyotaview.Common.{
  ℕ, zero, suc, ◌+◌, ℤ, pos, pos_part, ltb, leb, ltb_ℤ, Bool, ◌&&◌, Option, none, some, List, [],
  ◌∷◌, ◌++◌, Str, String, GoError, new_error, wrapped, api_error, Result, ok, err, if◌then◌else◌,
}
use toyotaview.Smartcar.Http.{Url, Request, Response, Net, AccessToken}
use toyotaview.Smartcar.Retry.{should_retry_status, should_retry_error, retry_delay}

-- The label of a request in the metrics.
pub data Label : Type 0 where
  transport_error : Label
  code_label : ℕ → Label

-- What the client sends, and what it tells the observer and the logger, in order.
pub data ClientEvent : Type 0 where
  sent : Request → ClientEvent
  request_recorded : String → Label → Option GoError → ClientEvent
  token_recorded : String → ClientEvent
  retry_warned : String → ℕ → ClientEvent

-- The fields of `Client` that do not change.
pub record ClientConfig : Type 0 where
  pub client_id : Str
  pub client_secret : Str
  pub iam_base_url : Url
  pub vehicle_base_url : Url
  pub unit_system : Str
  pub max_retries : ℤ
  pub user_agent : Str

pub record ClientState (W : Type 0) : Type 0 where
  pub world : W
  pub token_cache : AccessToken
  pub events : List ClientEvent

abbrev pub Headers : Type 0
Headers = String → Str

-- How a round of the loop of `do` ends: with its result, or with a retry after a delay that these
-- headers may set.
pub data Round : Type 0 where
  done : Result (Headers × Str) → Round
  again : Option Headers → Round

-- `resp.StatusCode >= 200 && resp.StatusCode < 300`.
unfoldable pub is_success : ℕ → Bool
is_success status = leb 200 status && ltb status 300

-- sanitizeURL: no query and no user information.
unfoldable pub sanitize_url : Url → Url
sanitize_url u = record {
  scheme = u.scheme;
  user = [];
  host = u.host;
  path = u.path;
  raw_query = [];
}

abbrev pub max_error_body_bytes : ℕ
max_error_body_bytes = 65_536

-- The limit on the body that is read.
unfoldable pub body_limit : Response → Option ℕ
body_limit resp = if is_success resp.status then none else some max_error_body_bytes

module _ {W : Type 0} where
  unfoldable pub log : ClientEvent → ClientState W → ClientState W
  log e st = record st { events = st.events ++ e ∷ [] }

module _ {W : Type 0} (net : Net W) (c : ClientConfig) (operation : String) where
  unfoldable pub api_error_of : Request → Response → Str → GoError
  api_error_of req resp body = api_error (record {
    operation = operation;
    method = req.method;
    url = net.url_text (sanitize_url req.url);
    status = resp.status;
    request_id = resp.headers "SC-Request-Id";
    body = body;
  })

  -- The round once the body is read and closed.
  unfoldable pub judge : Request → ℕ → Response → Str → ClientState W → Round × ClientState W
  unfolding is_success should_retry_status api_error_of log
  judge req attempt resp body st =
      let e : GoError = api_error_of req resp body in
      if is_success resp.status
      then (
        done (ok (resp.headers, body)),
        log (request_recorded operation (code_label resp.status) none) st,
      )
      else if should_retry_status resp.status && ltb_ℤ (pos attempt) c.max_retries
      then (again (some resp.headers), log (retry_warned operation (attempt + 1)) st)
      else (done (err e), log (request_recorded operation (code_label resp.status) (some e)) st)

  unfoldable pub fail_read : Response → GoError → ClientState W → Round × ClientState W
  fail_read resp e st =
      (done (err e), log (request_recorded operation (code_label resp.status) (some e)) st)

  unfoldable pub after_read :
      Request → ℕ → Response → Result Str → ClientState W → Round × ClientState W
  after_read req attempt resp (err e) st = fail_read resp (wrapped "read response body" e) st
  after_read req attempt resp (ok body) st = elim resp.close_error [
    | some e ↦ fail_read resp (wrapped "close response body" e) st
    | none ↦ judge req attempt resp body st
  ]

  unfoldable pub after_send : Request → ℕ → Result Response → ClientState W → Round × ClientState W
  after_send req attempt (err e) st =
      if should_retry_error e && ltb_ℤ (pos attempt) c.max_retries
      then (again none, log (retry_warned operation (attempt + 1)) st)
      else (done (err e), log (request_recorded operation transport_error (some e)) st)
  after_send req attempt (ok resp) st =
      after_read req attempt resp (resp.read_body (body_limit resp)) st

  unfoldable pub round : Result Request → ℕ → ClientState W → Round × ClientState W
  round (err e) attempt st = (done (err e), st)
  round (ok req) attempt st =
      let (r, w) = net.send req st.world in
      after_send req attempt r (log (sent req) (record st { world = w }))

  -- After a round: its result, or a wait and then the next round.
  unfoldable pub continue_with :
      ℕ
      → (ClientState W → Option (Result (Headers × Str) × ClientState W))
      → Round × ClientState W
      → Option (Result (Headers × Str) × ClientState W)
  continue_with attempt next (done r, st) = some (r, st)
  continue_with attempt next (again headers, st) =
      let (ended, w) = net.wait (retry_delay net headers attempt st.world) st.world in
      let waited : ClientState W = record st { world = w } in
      let rest = next waited in if ended then some (err (net.context_error w), waited) else rest

  -- The loop of `do`; `none` means that the fuel ran out.
  unfoldable pub do_loop :
      ℕ → Result Request → ℕ → ClientState W → Option (Result (Headers × Str) × ClientState W)
  do_loop zero build attempt st = none
  do_loop (suc fuel) build attempt st =
      continue_with attempt (do_loop fuel build (suc attempt)) (round build attempt st)

  -- `do`: one round for the first attempt and one for each retry are enough fuel, so the last
  -- case is never met (Laws).
  unfoldable pub do_request :
      Result Request → ClientState W → Result (Headers × Str) × ClientState W
  do_request build st = elim (do_loop (suc (pos_part c.max_retries)) build 0 st) [
    | some r ↦ r
    | none ↦ (err (new_error "unreachable"), st)
  ]
