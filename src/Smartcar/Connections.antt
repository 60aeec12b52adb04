-- ===== src/Smartcar/Connections.antt =====
-- ListConnections of internal/smartcar/client.go: the pages of the connections, as the server links
-- them. The loop has no bound of its own, so its model takes fuel, one for each page.
pub mod Laws
pub mod Paging
use toyotaview.Common.{
  ℕ, zero, suc, Option, none, some, List, [], ◌∷◌, ◌++◌, map, Str, str, is_empty, new_error,
  wrapped, Result, ok, err, if◌then◌else◌,
}
use toyotaview.Smartcar.Models.{Connection}
use toyotaview.Smartcar.Http.{Net}
use toyotaview.Smartcar.Json.{Json}
use toyotaview.Smartcar.Api.{Api}
use toyotaview.Smartcar.Decode.{decode_connection}
use toyotaview.Smartcar.Client.{ClientConfig, ClientState, Headers}
use toyotaview.Smartcar.Token.{do_authorized}
use toyotaview.Smartcar.Vehicle.{resolve_vehicle_url, get_request, get_vehicle}
use toyotaview.Smartcar.Signals.{get_signal}

module _ {W : Type 0} (net : Net W) (json : Json) (c : ClientConfig) where
  unfoldable pub read_page :
      Result (Headers × Str) × ClientState W → Result (List Connection × Str) × ClientState W
  read_page (err e, st) = (err e, st)
  read_page (ok (headers, body), st) = elim (json.connections_response body) [
    | err e ↦ (err (wrapped "decode connections response" e), st)
    | ok response ↦
        (ok (map (decode_connection json) response.connections, response.links.next), st)
  ]

  -- One page: its connections, and the path of the next page.
  unfoldable pub get_page : Str → ClientState W → Result (List Connection × Str) × ClientState W
  get_page next_path st =
      let url = resolve_vehicle_url net c next_path in
      read_page
        (do_authorized net json.token_response c "list_connections" (get_request net c url []) st)

  -- The rest of the loop after a page.
  unfoldable pub after_page :
      (List Connection → Str → ClientState W → Option (Result (List Connection) × ClientState W))
      → List Connection
      → Result (List Connection × Str) × ClientState W
      → Option (Result (List Connection) × ClientState W)
  after_page next connections (err e, st) = some (err e, st)
  after_page next connections (ok (page, path), st) = next (connections ++ page) path st

  -- The loop; `none` means that the fuel ran out.
  unfoldable pub list_pages :
      ℕ → List Connection → Str → ClientState W → Option (Result (List Connection) × ClientState W)
  list_pages zero connections next_path st =
      if is_empty next_path then some (ok connections, st) else none
  list_pages (suc fuel) connections next_path st =
      let rest = after_page (list_pages fuel) connections (get_page next_path st) in
      if is_empty next_path then some (ok connections, st) else rest

  unfoldable pub first_page : Str → Str
  first_page user_id =
      str "/connections?"
      ++ net.encode_form
          (("filter[userId]", user_id) ∷ ("page[number]", str "1") ∷ ("page[size]", str "100") ∷ [])

  -- ListConnections, as far as this many pages.
  unfoldable pub list_connections :
      ℕ → Str → ClientState W → Option (Result (List Connection) × ClientState W)
  list_connections pages user_id st = list_pages pages [] (first_page user_id) st

  -- The client as the interface of the service, for a server that links at most this many pages.
  unfoldable pub client_api : ℕ → Api (ClientState W)
  client_api pages = record {
    list_connections = λ user_id st. elim (list_connections pages user_id st) [
      | some r ↦ r
      | none ↦ (err (new_error "more pages than the model reads"), st)
    ];
    get_vehicle = get_vehicle net json c;
    get_signal = get_signal net json c;
  }
