-- ===== src/Router/Parse/Receiver.antt =====
-- `parse_receiver_status`.
use oxicast.Common.{
  String, false, Option, some, List, [], option_map, and_then, unwrap_or, filter_map,
}
use oxicast.Types.{F64, F32, Application, ReceiverStatus}
use oxicast.Serde.{SerdeJson}
use oxicast.Router.Parse.Fields.{get_str, get_bool, get_array}
use oxicast.Router.Parse.Media.{parse_volume}

module _ (j : SerdeJson) (to_f32 : F64 → F32) where
  open j use {Value, get}

  abbrev pub parse_namespaces : Value → List String
  parse_namespaces app =
      unwrap_or (option_map (filter_map λ n. get_str j n "name") (get_array j app "namespaces")) []

  abbrev pub parse_application : Value → Option Application
  parse_application app = and_then (get_str j app "appId") λ app_id.
      and_then (get_str j app "sessionId") λ session_id.
        option_map
          (λ transport_id. record {
            app_id = app_id;
            display_name = unwrap_or (get_str j app "displayName") "";
            session_id = session_id;
            transport_id = transport_id;
            namespaces = parse_namespaces app;
            status_text = unwrap_or (get_str j app "statusText") "";
          })
          (get_str j app "transportId")

  abbrev pub parse_applications : Value → List Application
  parse_applications status =
      unwrap_or (option_map (filter_map parse_application) (get_array j status "applications")) []

  unfoldable pub parse_receiver_status : Value → Option ReceiverStatus
  parse_receiver_status json = and_then (get json "status") λ status.
      option_map
        (λ volume_obj. record {
          volume = parse_volume j to_f32 (some volume_obj);
          applications = parse_applications status;
          is_active_input = unwrap_or (get_bool j status "isActiveInput") false;
          is_stand_by = unwrap_or (get_bool j status "isStandBy") false;
        })
        (get status "volume")
