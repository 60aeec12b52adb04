-- ===== src/Smartcar/Token.antt =====
-- accessToken, requestAccessToken and doAuthorized of internal/smartcar/client.go. The decoder of
-- a token response, encoding/json, is a parameter.
pub mod Laws
use toyotaview.Common.{
  ℤ, Str, str, String, [], ◌∷◌, ◌++◌, wrapped, Result, ok, err, Time, ◌+ℤ◌, if◌then◌else◌,
}
use toyotaview.Smartcar.Http.{Request, Net, AccessToken, is_valid}
use toyotaview.Smartcar.Retry.{seconds_duration}
use toyotaview.Smartcar.Client.{ClientConfig, ClientState, token_recorded, Headers, log, do_request}

module _ {W : Type 0} (net : Net W) (decode_token : Str → Result (Str × ℤ)) (c : ClientConfig) where
  -- The request that requestAccessToken builds.
  unfoldable pub token_request : Result Request
  token_request =
      elim (net.new_request "POST" (net.url_text c.iam_base_url ++ str "/oauth2/token")) [
        | err e ↦ err (wrapped "new token request" e)
        | ok url ↦ ok (record {
          method = "POST";
          url = url;
          headers =
              ("Content-Type", str "application/x-www-form-urlencoded")
              ∷ ("Accept", str "application/json")
              ∷ ("User-Agent", c.user_agent)
              ∷ [];
          body = net.encode_form (
              ("grant_type", str "client_credentials")
              ∷ ("client_id", c.client_id)
              ∷ ("client_secret", c.client_secret)
              ∷ []);
        })
      ]

  -- The token of a response that arrived at this time.
  unfoldable pub decode_access_token : Str → Time → Result AccessToken
  decode_access_token body now = elim (decode_token body) [
    | err e ↦ err (wrapped "decode token response" e)
    | ok (value, expires_in) ↦
        ok (record { value = value; expires_at = now +ℤ seconds_duration expires_in })
  ]

  -- The end of requestAccessToken.
  unfoldable pub read_token :
      Result (Headers × Str) × ClientState W → Result AccessToken × ClientState W
  read_token (err e, st) = (err e, st)
  read_token (ok (headers, body), st) = (decode_access_token body (net.now st.world), st)

  unfoldable pub request_access_token : ClientState W → Result AccessToken × ClientState W
  request_access_token st = read_token (do_request net c "token_request" token_request st)

  -- The end of accessToken: the cache is filled on success alone.
  unfoldable pub finish_token : Result AccessToken × ClientState W → Result Str × ClientState W
  finish_token (err e, st) = (err e, log (token_recorded "error") st)
  finish_token (ok token, st) =
      (ok token.value, log (token_recorded "ok") (record st { token_cache = token }))

  unfoldable pub access_token : ClientState W → Result Str × ClientState W
  access_token st =
      if is_valid (net.now st.world) st.token_cache
      then (ok st.token_cache.value, st)
      else finish_token (request_access_token st)

  unfoldable pub with_token :
      String
      → (Str → Result Request)
      → Result Str × ClientState W
      → Result (Headers × Str) × ClientState W
  with_token operation build (err e, st) = (err e, st)
  with_token operation build (ok token, st) = do_request net c operation (build token) st

  -- A request that needs a token, built by `build`.
  unfoldable pub do_authorized :
      String → (Str → Result Request) → ClientState W → Result (Headers × Str) × ClientState W
  do_authorized operation build st = with_token operation build (access_token st)
