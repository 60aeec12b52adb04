-- ===== src/Smartcar/Transport.antt =====
-- The settings that NewHTTPClient of internal/smartcar/transport.go gives to net/http.
use toyotaview.Common.{ℕ, Bool, true, Duration, seconds}

-- The `http.Transport` with its dialer, and the timeout of the `http.Client`; `Tls` is *tls.Config.
pub record HttpClient (Tls : Type 0) : Type 0 where
  pub proxy_from_environment : Bool
  pub dial_timeout : Duration
  pub dial_keep_alive : Duration
  pub force_attempt_http2 : Bool
  pub max_idle_conns : ℕ
  pub max_idle_conns_per_host : ℕ
  pub max_conns_per_host : ℕ
  pub idle_conn_timeout : Duration
  pub tls_handshake_timeout : Duration
  pub response_header_timeout : Duration
  pub expect_continue_timeout : Duration
  pub tls_client_config : Tls
  pub timeout : Duration

unfoldable pub new_http_client : {Tls : Type 0} → Duration → Tls → HttpClient Tls
new_http_client timeout tls = record {
  proxy_from_environment = true;
  dial_timeout = seconds 5;
  dial_keep_alive = seconds 30;
  force_attempt_http2 = true;
  max_idle_conns = 100;
  max_idle_conns_per_host = 10;
  max_conns_per_host = 10;
  idle_conn_timeout = seconds 90;
  tls_handshake_timeout = seconds 5;
  response_header_timeout = seconds 15;
  expect_continue_timeout = seconds 1;
  tls_client_config = tls;
  timeout = timeout;
}
