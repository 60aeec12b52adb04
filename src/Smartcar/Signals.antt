-- ===== src/Smartcar/Signals.antt =====
-- GetSignal of internal/smartcar/client.go.
use toyotaview.Common.{[], ◌∷◌, ◌++◌, Str, str, Result, ok, err}
use toyotaview.Smartcar.Models.{Signal}
use toyotaview.Smartcar.Http.{Net}
use toyotaview.Smartcar.Json.{Json}
use toyotaview.Smartcar.Decode.{normalize_signal_payload, decode_signal}
use toyotaview.Smartcar.Client.{ClientConfig, ClientState, Headers}
use toyotaview.Smartcar.Token.{do_authorized}
use toyotaview.Smartcar.Vehicle.{resolve_vehicle_url, get_request}

module _ {W : Type 0} (net : Net W) (json : Json) (c : ClientConfig) where
  unfoldable pub read_signal :
      Str → Result (Headers × Str) × ClientState W → Result Signal × ClientState W
  read_signal signal_code (err e, st) = (err e, st)
  read_signal signal_code (ok (headers, body), st) =
      let payload = normalize_signal_payload json body in
      (ok (decode_signal json signal_code payload headers (net.now st.world)), st)

  unfoldable pub get_signal : Str → Str → Str → ClientState W → Result Signal × ClientState W
  get_signal user_id vehicle_id signal_code st =
      let path =
        str "/vehicles/"
        ++ (net.path_escape vehicle_id ++ (str "/signals/" ++ net.path_escape signal_code)) in
      let extra = ("sc-user-id", user_id) ∷ ("SC-Unit-System", c.unit_system) ∷ [] in
      read_signal signal_code (
        do_authorized net json.token_response c "get_signal"
          (get_request net c (resolve_vehicle_url net c path) extra) st)
