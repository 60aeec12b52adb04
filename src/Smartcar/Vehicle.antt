-- ===== src/Smartcar/Vehicle.antt =====
-- GetVehicle, the requests of the API and resolveVehicleURL of internal/smartcar/client.go.
pub mod Laws
use toyotaview.Common.{
  List, String, ◌||◌, [], ◌∷◌, ◌++◌, Str, str, wrapped, Result, ok, err, has_prefix, if◌then◌else◌,
}
use toyotaview.Smartcar.Models.{Vehicle}
use toyotaview.Smartcar.Json.{Json}
use toyotaview.Smartcar.Decode.{vehicle_of}
use toyotaview.Smartcar.Http.{Request, Net}
use toyotaview.Smartcar.Client.{ClientConfig, ClientState, Headers}
use toyotaview.Smartcar.Token.{do_authorized}

module _ {W : Type 0} (net : Net W) (c : ClientConfig) where
  unfoldable pub resolve_vehicle_url : Str → Str
  resolve_vehicle_url path =
      if has_prefix path (str "http://") || has_prefix path (str "https://")
      then path
      else elim (net.parse_url path) [
        | err e ↦ net.url_text c.vehicle_base_url
        | ok relative ↦ net.url_text (net.resolve_reference c.vehicle_base_url relative)
      ]

  -- A GET request with a token and these further headers, as the calls of the API build it.
  unfoldable pub get_request : Str → List (String × Str) → Str → Result Request
  get_request request_url extra token = elim (net.new_request "GET" request_url) [
    | err e ↦ err (wrapped "new request" e)
    | ok url ↦ ok (record {
      method = "GET";
      url = url;
      headers =
          ("Authorization", str "Bearer " ++ token)
          ∷ ("Accept", str "application/json")
          ∷ ("User-Agent", c.user_agent)
          ∷ extra;
      body = [];
    })
  ]

module _ {W : Type 0} (net : Net W) (json : Json) (c : ClientConfig) where
  unfoldable pub read_vehicle :
      Result (Headers × Str) × ClientState W → Result Vehicle × ClientState W
  read_vehicle (err e, st) = (err e, st)
  read_vehicle (ok (headers, body), st) = elim (json.vehicle_response body) [
    | err e ↦ (err (wrapped "decode vehicle response" e), st)
    | ok response ↦ (ok (vehicle_of response.vehicle.id response.vehicle.attributes), st)
  ]

  unfoldable pub get_vehicle : Str → ClientState W → Result Vehicle × ClientState W
  get_vehicle vehicle_id st =
      let url = resolve_vehicle_url net c (str "/vehicles/" ++ net.path_escape vehicle_id) in
      read_vehicle
        (do_authorized net json.token_response c "get_vehicle" (get_request net c url []) st)
