-- ===== src/Web/Demo.antt =====
-- A small site, and a request to it.
use toyotaview.Common.{none, false, ℕ, suc, pos, some, [], Str, str, Result, ok, err, sentinel}
use toyotaview.Smartcar.Http.{Url}
use toyotaview.Auth.Types.{Session}
use toyotaview.Common.{new_error, session_not_found, ◌∷◌, true, ◌≡◌, refl}
use toyotaview.Config.Types.{SmartcarConfig}
use toyotaview.Smartcar.Api.{Api}
use toyotaview.Store.{new_memory_store}
use toyotaview.App.Types.{new_service}
use toyotaview.Auth.Types
use toyotaview.Web.Views.{Printer}
use toyotaview.Web.Response.{Site, Exchange, error_written, write}
use toyotaview.Web.Routes.{Route, protected, post_refresh}
use toyotaview.Web.Routes.Answers.{part, IsServing, count, count-write_answer}
use toyotaview.Web.Guards.{Request}

abbrev pub demo_session : Session
demo_session = record {
  token_hash = str "h";
  user_id = pos 7;
  expires_at = pos 9;
  created_at = pos 1;
}

abbrev pub demo_request : Request
demo_request = record {
  method = str "POST";
  host = str "localhost";
  header = λ name. [];
  session_cookie = some (str "eA");
  tls = false;
  vehicle_id = [];
  parse_error = none;
  form_value = λ name. [];
}

abbrev pub demo_parse : Str → Result Url
demo_parse value = ok (record { scheme = []; user = []; host = value; path = []; raw_query = [] })

abbrev pub demo_session_store : Types.Store ℕ
demo_session_store = record {
  create_user = λ params w. (err (new_error "closed"), suc w);
  find_user_by_username = λ name w. (err (new_error "closed"), suc w);
  create_session = λ params w. (ok demo_session, suc w);
  find_session_by_token_hash = λ hash w. (err (sentinel session_not_found), suc w);
  delete_session = λ hash w. (none, suc w);
  delete_expired_sessions = λ w. (none, suc w);
}

abbrev pub demo_accounts : Types.Library ℕ
demo_accounts = record {
  generate_from_password = λ password w. (ok (str "h"), suc w);
  compare_hash_and_password = λ hash password. none;
  random_bytes = λ n w. (ok (str "x"), suc w);
  sha256 = λ s. s;
  hex_encode = λ s. s;
  base64_encode = λ s. s;
  now = λ w. pos w;
  lower_unicode = λ s. s;
}

abbrev pub demo_api : Api ℕ
demo_api = record {
  list_connections = λ user w. (err (new_error "down"), suc w);
  get_vehicle = λ vehicle w. (err (new_error "down"), suc w);
  get_signal = λ user vehicle code w. (err (new_error "down"), suc w);
}

abbrev pub demo_smartcar : SmartcarConfig
demo_smartcar = record {
  client_id = [];
  client_secret = [];
  user_id = str "u";
  iam_base_url = [];
  vehicle_base_url = [];
  vehicle_ids = [];
  signal_codes = str "range" ∷ [];
  unit_system = str "metric";
  timeout = pos 1;
  max_retries = pos 0;
}

abbrev pub demo_printer : Printer
demo_printer = record {
  error_text = λ e. str "error";
  int_text = λ n. str "1";
  float_text = λ n. str "1";
  rfc3339 = λ t. str "t";
  marshal_indent = λ v. ok (str "{}");
  default_text = λ v. str "v";
  indent = λ s. ok s;
}

abbrev pub demo_site : Site ℕ
demo_site = record {
  api = demo_api;
  now = λ w. pos w;
  service = new_service demo_smartcar;
  accounts = demo_accounts;
  storage = demo_session_store;
  session_ttl = pos 5;
  secure_cookies = true;
  printer = demo_printer;
  execute = λ page. ok (str "<html>");
  write_body = λ bytes w. (none, suc w);
  is_abort_handler = λ e. false;
  path_escape = λ s. s;
  version = record { version = str "1"; commit = str "c"; date = str "d" };
}

abbrev pub demo_exchange : Exchange ℕ
demo_exchange = record {
  app = record { world = 0; store = new_memory_store; events = [] };
  writes = [];
  logs = [];
}

abbrev pub demo_matched : Request → Route
demo_matched r = protected post_refresh

abbrev pub demo_not_found : Request → Exchange ℕ → Exchange ℕ
demo_not_found r x = write (error_written (str "404 page not found") 404) x

pub demo_site-IsServing : IsServing demo_site
demo_site-IsServing = record { executes = λ page. (str "<html>", refl); delivers = λ bytes w. refl }

pub demo_not_found-once :
    (r : Request) (x : Exchange ℕ) → count (demo_not_found r x) ≡ suc (count x)
unfolding part
demo_not_found-once r x = count-write_answer (error_written (str "404 page not found") 404) x refl
