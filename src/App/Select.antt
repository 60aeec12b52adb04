-- ===== src/App/Select.antt =====
-- filterConnections of internal/app/app.go, and the search of RefreshVehicle for a connection.
pub mod Laws
use toyotaview.Common.{
  Bool, false, ◌||◌, List, [], ◌∷◌, Str, str_lt, str_eq, mem, is_empty, if◌then◌else◌,
}
use toyotaview.Smartcar.Models.{Connection}
use toyotaview.App.Types.{Service}

unfoldable pub insert_connection : Connection → List Connection → List Connection
insert_connection c [] = c ∷ []
insert_connection c (d ∷ ds) =
    if str_lt d.vehicle_id c.vehicle_id then d ∷ insert_connection c ds else c ∷ d ∷ ds

-- slices.SortFunc by the vehicle's identifier.
unfoldable pub sort_connections : List Connection → List Connection
sort_connections [] = []
sort_connections (c ∷ cs) = insert_connection c (sort_connections cs)

-- The loop of filterConnections.
unfoldable pub keep_allowed : List Str → List Connection → List Connection
keep_allowed allowed [] = []
keep_allowed allowed (c ∷ cs) =
    let rest = keep_allowed allowed cs in if mem c.vehicle_id allowed then c ∷ rest else rest

unfoldable pub filter_connections : Service → List Connection → List Connection
filter_connections s connections =
    if is_empty s.allowed_vehicle_ids
    then connections
    else sort_connections (keep_allowed s.allowed_vehicle_ids connections)

-- The loop of RefreshVehicle over the connections.
unfoldable pub is_connected : Str → List Connection → Bool
is_connected vehicle_id [] = false
is_connected vehicle_id (c ∷ cs) = str_eq c.vehicle_id vehicle_id || is_connected vehicle_id cs
