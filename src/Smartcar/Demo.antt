-- ===== src/Smartcar/Demo.antt =====
-- A small network, client and decoder, for the tests.
use toyotaview.Common.{
  err, str_eq, ℕ, suc, ◌==◌, ℤ, pos, false, none, [], Str, str, Result, ok, new_error,
  if◌then◌else◌,
}
use toyotaview.Smartcar.Http.{Url, Request, Response, Net, zero_token}
use toyotaview.Smartcar.Json.{Json}
use toyotaview.Smartcar.Client.{ClientConfig, ClientState}

abbrev pub a_url : Url
a_url = record { scheme = str "https"; user = []; host = str "h"; path = str "/x"; raw_query = [] }

abbrev pub a_response : ℕ → Response
a_response n = record {
  status = n;
  headers = λ name. [];
  read_body = λ limit. ok (str "t");
  close_error = none;
}

abbrev pub a_request : Request
a_request = record { method = "GET"; url = a_url; headers = []; body = [] }

-- The world counts the requests: the first is answered with 503, the others with 200.
abbrev pub demo_net : Net ℕ
demo_net = record {
  send = λ req w. (ok (a_response (if w == 0 then 503 else 200)), suc w);
  wait = λ delay w. (false, w);
  context_error = λ w. new_error "context canceled";
  now = λ w. pos w;
  unix_nano = λ w. w;
  parse_http_time = λ value. none;
  parse_url = λ value. ok a_url;
  resolve_reference = λ base rel. rel;
  url_text = λ u. u.path;
  new_request = λ method url. ok a_url;
  encode_form = λ fields. [];
  path_escape = λ value. value;
}

abbrev pub decode_demo : Str → Result (Str × ℤ)
decode_demo body = ok (body, pos 3_600)

abbrev pub demo_client : ClientConfig
demo_client = record {
  client_id = str "id";
  client_secret = str "secret";
  iam_base_url = a_url;
  vehicle_base_url = a_url;
  unit_system = str "metric";
  max_retries = pos 2;
  user_agent = str "smartcar-4runner/dev";
}

abbrev pub demo_start : ClientState ℕ
demo_start = record { world = 0; token_cache = zero_token; events = [] }

abbrev pub build_demo : Str → Result Request
build_demo token = ok a_request

abbrev pub demo_json : Json
demo_json = record {
  connections_response = λ body. ok (record {
    connections = [];
    links = record { next = if str_eq body (str "t") then [] else str "/connections?page=2" };
    meta = record { page_number = pos 1; page_size = pos 100; total_count = pos 0 };
  });
  vehicle_response = λ body. err (new_error "unexpected end of JSON input");
  token_response = decode_demo;
  signal_envelope = λ body. err (new_error "unexpected end of JSON input");
  any_object = λ body. err (new_error "unexpected end of JSON input");
  rfc3339 = λ value. err (new_error "cannot parse");
}
