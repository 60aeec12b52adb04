-- ===== src/Smartcar/Vehicle/Laws.antt =====
-- The requests of GetVehicle.
use toyotaview.Common.{
  str, ◌++◌, [], suc, ◌*◌, pos_part, Str, Result, ok, err, Result-cases, ◌≡◌, refl, inl, inr,
}
use toyotaview.Smartcar.Http.{Net}
use toyotaview.Smartcar.Json.{Json}
use toyotaview.Smartcar.Client.{ClientConfig, ClientState, Headers}
use toyotaview.Smartcar.Token.{do_authorized}
use toyotaview.Smartcar.Token.Laws.{SendsAtMost, sends-do_authorized}
use toyotaview.Smartcar.Vehicle.{resolve_vehicle_url, get_request, read_vehicle, get_vehicle}

module _ {W : Type 0} (net : Net W) (json : Json) (c : ClientConfig) where
  read_vehicle-state :
      (p : Result (Headers × Str) × ClientState W) → (read_vehicle net json c p).1 ≡ p.1
  unfolding read_vehicle
  read_vehicle-state (err e, st) = refl
  read_vehicle-state (ok (headers, body), st) = elim (Result-cases (json.vehicle_response body)) [
    | inl (v, read) ↦ rw (read, read_vehicle) refl
    | inr (e, bad) ↦ rw (bad, read_vehicle) refl
  ]

  -- Whatever the network answers, GetVehicle ends and sends at most twice as many requests as one
  -- request and its configured number of retries.
  pub sends-get_vehicle :
      (vehicle_id : Str) (st : ClientState W)
      → SendsAtMost net json.token_response c
          (2 * suc (pos_part c.max_retries))
          st
          (get_vehicle net json c vehicle_id st).1
  unfolding get_vehicle
  sends-get_vehicle vehicle_id st =
      let url = resolve_vehicle_url net c (str "/vehicles/" ++ net.path_escape vehicle_id) in
      let build = get_request net c url [] in
      rw (read_vehicle-state (do_authorized net json.token_response c "get_vehicle" build st))
        (sends-do_authorized net json.token_response c "get_vehicle" build st)
