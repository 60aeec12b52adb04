-- ===== src/Smartcar/Json.antt =====
-- The responses of the vehicle API as internal/smartcar/models.go types them, and what the client
-- asks of encoding/json and package time to read them.
use toyotaview.Common.{ℤ, Option, List, Str, Result, Time}
use toyotaview.Smartcar.Models.{AnyFields}

pub record VehicleAttributes : Type 0 where
  pub make : Str
  pub model : Str
  pub year : ℤ
  pub powertrain_type : Str
  pub mode : Str

pub record ResourceId : Type 0 where
  pub id : Str
  pub kind : Str

pub record ResourceRelationship : Type 0 where
  pub resource : ResourceId

pub record ConnectionAttributes : Type 0 where
  pub permissions : List Str
  pub vehicle : VehicleAttributes

pub record ConnectionRelationSet : Type 0 where
  pub vehicle : ResourceRelationship
  pub user : ResourceRelationship

pub record ConnectionTimestamps : Type 0 where
  pub created_at : Str
  pub updated_at : Str
  pub last_used_at : Option Str

pub record ConnectionData : Type 0 where
  pub id : Str
  pub kind : Str
  pub attributes : ConnectionAttributes
  pub relationships : ConnectionRelationSet
  pub meta : ConnectionTimestamps

pub record ConnectionLinks : Type 0 where
  pub next : Str

pub record ConnectionMetaData : Type 0 where
  pub page_number : ℤ
  pub page_size : ℤ
  pub total_count : ℤ

pub record ConnectionsResponse : Type 0 where
  pub connections : List ConnectionData
  pub links : ConnectionLinks
  pub meta : ConnectionMetaData

pub record VehicleData : Type 0 where
  pub id : Str
  pub kind : Str
  pub attributes : VehicleAttributes

pub record VehicleResponse : Type 0 where
  pub vehicle : VehicleData

-- json.Unmarshal into each of the types that the client reads, and time.Parse by RFC 3339.
pub record Json : Type 0 where
  pub connections_response : Str → Result ConnectionsResponse
  pub vehicle_response : Str → Result VehicleResponse
  -- The value of an access token and its lifetime in seconds.
  pub token_response : Str → Result (Str × ℤ)
  -- The bytes of the member `data` of an object, empty where it has none.
  pub signal_envelope : Str → Result Str
  pub any_object : Str → Result AnyFields
  pub rfc3339 : Str → Result Time
