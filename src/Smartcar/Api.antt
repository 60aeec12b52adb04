-- ===== src/Smartcar/Api.antt =====
-- The interface `smartcar.API` of internal/smartcar/client.go. A call reads and changes a world of
-- type `W`: the network and the clock for the HTTP client, the clock alone for the mocked backend.
use toyotaview.Common.{Str, List, Result}
use toyotaview.Smartcar.Models.{Vehicle, Signal, Connection}

pub record Api (W : Type 0) : Type 0 where
  pub list_connections : Str → W → Result (List Connection) × W
  pub get_vehicle : Str → W → Result Vehicle × W
  pub get_signal : Str → Str → Str → W → Result Signal × W
