-- ===== src/Smartcar/Decode.antt =====
-- decodeConnection, decodeSignal, normalizeSignalPayload and parseTime of
-- internal/smartcar/client.go.
use toyotaview.Common.{
  Option, none, some, Str, str, str_eq, is_empty, Result, ok, err, Time, zero_time, if◌then◌else◌,
  String,
}
use toyotaview.Smartcar.Models.{
  AnyValue, text, object, AnyFields, no_fields, field, Vehicle, Signal, Connection,
}
use toyotaview.Smartcar.Json.{Json, VehicleAttributes, ConnectionData}
use toyotaview.Smartcar.Names.{signal_name_from_code, signal_group_from_code}

-- A member of a decoded object.
unfoldable pub member : Str → AnyFields → Option AnyValue
member key no_fields = none
member key (field k v rest) = if str_eq k key then some v else member key rest

-- `decoded[key].(string)`, if it is one and not empty, in place of `before`.
unfoldable pub text_or : Str → Option AnyValue → Str
text_or before (some (text s)) = if is_empty s then before else s
text_or before (some v) = before
text_or before none = before

unfoldable pub vehicle_of : Str → VehicleAttributes → Vehicle
vehicle_of id a = record {
  id = id;
  make = a.make;
  model = a.model;
  year = a.year;
  powertrain_type = a.powertrain_type;
  mode = a.mode;
}

-- The value, the unit and the status of a payload that is an object.
unfoldable pub with_members : AnyFields → Signal → Signal
unfolding member text_or
with_members decoded s = record s {
  value = elim (member (str "value") decoded) [ some v ↦ v | none ↦ object decoded ];
  unit = text_or s.unit (member (str "unit") decoded);
  status = text_or s.status (member (str "status") decoded);
}

module _ (json : Json) where
  unfoldable pub parse_time : Str → Time
  parse_time value =
      if is_empty value
      then zero_time
      else elim (json.rfc3339 value) [ ok t ↦ t | err e ↦ zero_time ]

  unfoldable pub last_used : Option Str → Time
  last_used none = zero_time
  last_used (some value) = parse_time value

  unfoldable pub decode_connection : ConnectionData → Connection
  decode_connection item =
      let vehicle_id : Str = item.relationships.vehicle.resource.id in
      record {
        id = item.id;
        vehicle_id = vehicle_id;
        user_id = item.relationships.user.resource.id;
        permissions = item.attributes.permissions;
        vehicle = vehicle_of vehicle_id item.attributes.vehicle;
        created_at = parse_time item.meta.created_at;
        updated_at = parse_time item.meta.updated_at;
        last_used_at = last_used item.meta.last_used_at;
      }

  -- The payload of a signal: the member `data` of an envelope, or else the whole body.
  unfoldable pub normalize_signal_payload : Str → Str
  normalize_signal_payload body = elim (json.signal_envelope body) [
    | ok payload ↦ if is_empty payload then body else payload
    | err e ↦ body
  ]

  unfoldable pub read_members : Str → Signal → Result AnyFields → Signal
  unfolding with_members
  read_members payload s (err e) = record s { value = text payload }
  read_members payload s (ok decoded) = with_members decoded s

  unfoldable pub decode_signal : Str → Str → (String → Str) → Time → Signal
  decode_signal signal_code payload headers now =
      read_members payload
        (record {
          code = signal_code;
          name = signal_name_from_code signal_code;
          group = signal_group_from_code signal_code;
          status = str "ok";
          unit = headers "SC-Unit-System";
          value = AnyValue.nil_value;
          body = payload;
          retrieved_at = parse_time (headers "SC-Fetched-At");
          oem_updated_at = parse_time (headers "SC-Data-Age");
          ingested_at = now;
        })
        (json.any_object payload)
