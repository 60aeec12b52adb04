-- ===== src/App/Live.antt =====
-- The service of internal/app/app.go over the HTTP client of internal/smartcar/client.go.
use toyotaview.Common.{
  ℕ, suc, ◌+◌, ◌*◌, ◌≤◌, false, length, [], ◌∷◌, ◌++◌, Str, str, is_empty, Result, ok, err, Time,
  ◌≡◌, refl,
}
use toyotaview.Smartcar.Http.{Net}
use toyotaview.Smartcar.Json.{Json}
use toyotaview.Smartcar.Client.{ClientConfig, ClientState, Headers}
use toyotaview.Smartcar.Client.Counts.{sends}
use toyotaview.Smartcar.Token.{do_authorized}
use toyotaview.Smartcar.Token.Laws.{SendsAtMost, sends-do_authorized}
use toyotaview.Smartcar.Vehicle.{resolve_vehicle_url, get_request}
use toyotaview.Smartcar.Vehicle.Laws.{sends-get_vehicle}
use toyotaview.Smartcar.Signals.{read_signal, get_signal}
use toyotaview.Smartcar.Connections.{client_api}
use toyotaview.Smartcar.Connections.Paging.{call_bound}
use toyotaview.App.Types.{State, Service}
use toyotaview.App.Refresh.{refresh_vehicle}
use toyotaview.App.Refresh.Cost.{IsBounded, refresh_vehicle-cost}

module _ {W : Type 0} (net : Net W) (json : Json) (c : ClientConfig) (pages : ℕ) where
  read_signal-state :
      (code : Str) (p : Result (Headers × Str) × ClientState W)
      → (read_signal net json c code p).1 ≡ p.1
  unfolding read_signal
  read_signal-state code (err e, st) = refl
  read_signal-state code (ok (headers, body), st) = refl

  sends-get_signal :
      (user_id vehicle_id code : Str) (st : ClientState W)
      → SendsAtMost net json.token_response c
          (call_bound net json c)
          st
          (get_signal net json c user_id vehicle_id code st).1
  unfolding get_signal
  sends-get_signal user_id vehicle_id code st =
      let path =
        str "/vehicles/"
        ++ (net.path_escape vehicle_id ++ (str "/signals/" ++ net.path_escape code)) in
      let extra = ("sc-user-id", user_id) ∷ ("SC-Unit-System", c.unit_system) ∷ [] in
      let build = get_request net c (resolve_vehicle_url net c path) extra in
      rw (read_signal-state code (do_authorized net json.token_response c "get_signal" build st))
        (sends-do_authorized net json.token_response c "get_signal" build st)

  abbrev pub sent_by : ClientState W → ℕ
  sent_by st = sends st.events

  client_api-IsBounded : IsBounded (client_api net json c pages) sent_by (call_bound net json c)
  unfolding client_api
  client_api-IsBounded = record {
    vehicle = λ k st. (sends-get_vehicle net json c k st).1;
    signal = λ user k code st. (sends-get_signal user k code st).1;
  }

  -- Over the HTTP client and with an allowlist, RefreshVehicle sends at most two requests and their
  -- configured number of retries, one of them for the token, for the vehicle and for each
  -- configured signal code, whatever the network answers.
  pub sends-refresh_vehicle :
      (now : ClientState W → Time) (s : Service) (vehicle_id : Str) (st : State (ClientState W))
      → is_empty s.allowed_vehicle_ids ≡ false
      → sent_by (refresh_vehicle (client_api net json c pages) now s vehicle_id st).1.world
        ≤ sent_by st.world + suc (length s.cfg.signal_codes) * call_bound net json c
  sends-refresh_vehicle now s vehicle_id st closed =
      refresh_vehicle-cost (client_api net json c pages) now s sent_by (call_bound net json c)
        client_api-IsBounded vehicle_id st closed
