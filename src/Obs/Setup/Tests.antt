-- ===== src/Obs/Setup/Tests.antt =====
-- An observer whose collectors count their calls.
use toyotaview.Common.{str_eq, err, new_error, if◌then◌else◌, ℕ, suc, none, Str, str, ok}
use toyotaview.Obs.Setup.{Telemetry}

-- There is one file, and no client certificate.
abbrev collectors : Telemetry ℕ Str
collectors = record {
  read_file = λ path w. (
    (if str_eq path (str "ca.pem") then ok (str "CA") else err (new_error "no such file")),
    suc w,
  );
  append_certs = λ pem. str_eq pem (str "CA");
  load_key_pair = λ cert key w. (err (new_error "no such file"), suc w);
  new_trace_exporter = λ o w. (none, suc w);
  new_metric_exporter = λ o w. (none, suc w);
  new_resource = λ r w. (none, suc w);
  create = λ kind name w. (none, suc w);
  register_callback = λ w. (none, suc w);
  shutdown_tracer = λ w. (none, suc w);
  shutdown_meter = λ w. (none, suc w);
  warn = λ errs w. suc w;
  type_name = λ e. str "*errors.errorString";
}
