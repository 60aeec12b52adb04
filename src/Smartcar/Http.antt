-- ===== src/Smartcar/Http.antt =====
-- What the client of internal/smartcar asks of net/http, net/url and the clock, as parameters, and
-- `accessToken` of internal/smartcar/token.go.
use toyotaview.Common.{
  ℕ, Bool, false, Option, List, Str, String, GoError, Result, Time, Duration, minutes, before,
  is_empty, ◌-ℤ◌, if◌then◌else◌, zero_time, [],
}

-- The parts of a `url.URL` that the program names, with its query and its user information.
pub record Url : Type 0 where
  pub scheme : Str
  pub user : Str
  pub host : Str
  pub path : Str
  pub raw_query : Str

pub record Request : Type 0 where
  pub method : String
  pub url : Url
  pub headers : List (String × Str)
  pub body : Str

-- `headers s` is `Get(s)`: empty where the header is absent.
pub record Response : Type 0 where
  pub status : ℕ
  pub headers : String → Str
  -- io.ReadAll of the body, of at most so many bytes if a limit is given.
  pub read_body : Option ℕ → Result Str
  pub close_error : Option GoError

-- net/http, net/url and package time. `wait d` sleeps, and is true if the context ended first.
pub record Net (W : Type 0) : Type 0 where
  pub send : Request → W → Result Response × W
  pub wait : Duration → W → Bool × W
  pub context_error : W → GoError
  pub now : W → Time
  pub unix_nano : W → ℕ
  pub parse_http_time : Str → Option Time
  pub parse_url : Str → Result Url
  pub resolve_reference : Url → Url → Url
  pub url_text : Url → Str
  pub new_request : String → Str → Result Url
  pub encode_form : List (String × Str) → Str
  pub path_escape : Str → Str

pub record AccessToken : Type 0 where
  pub value : Str
  pub expires_at : Time

abbrev pub zero_token : AccessToken
zero_token = record { value = []; expires_at = zero_time }

-- The token is used until five minutes before it expires.
unfoldable pub is_valid : Time → AccessToken → Bool
is_valid now t = if is_empty t.value then false else before now (t.expires_at -ℤ minutes 5)
