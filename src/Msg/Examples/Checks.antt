-- ===== src/Msg/Examples/Checks.antt =====
-- The theorems on src/msg.c at concrete inputs of the small service.
use knot_service_source.Common.{
  c_string, ℕ, ◌≡◌, ◌≢◌, refl, ◌<◌, All, length, arith, true, false, none, some, [], ◌∷◌, ℤ, pos,
  lookup,
}
use knot_service_source.Env.Messages.{Bytes, MsgSchema, MsgData, MsgItem, MsgRegister, no_header}
use knot_service_source.Common.Monad.{Result, ok, fault, dangling}
use knot_service_source.Msg.State.{State, Trust, Channel}
use knot_service_source.Msg.Trust.{
  trust_map_get, trust_map_add, trust_ref, trust_unref, unref_found, trust_map_remove,
  trust_map_replace, trust_new, create_node_channel, create_device_watch, attach_watch, publish,
  trust_create,
}
use knot_service_source.Msg.Cloud.{
  proto_schema, create_schema_list_object, append_schemas, create_schema_object,
  create_device_object, is_uuid_valid, is_token_valid, check_credentials, mknode_response,
  proto_mknode, proto_signin, proto_rmnode,
}
use knot_service_source.Msg.Register.{
  Opdu, msg_register_has_valid_length, msg_register_has_valid_device_name,
  msg_register_get_device_name, get_socket_credentials, msg_credential_create, register_signed_in,
  register_created, register_new, register_valid, msg_register,
}
use knot_service_source.Msg.Process.{Answer, finish, dispatch, msg_process}
use knot_service_source.Msg.Parse.{parse_device_info}
use knot_service_source.Msg.Run.{
  msg_stop, msg_start, Event, request, hung_up, handle, Reachable, started, handled,
}
use knot_service_source.Common.Hoare.{Holds}
use knot_service_source.Msg.Safety.{no_use_after_free, Reachable-Inv}
use knot_service_source.Msg.Lifetime.{on_node_channel_disconnected}
use knot_service_source.Msg.Lifetime.Invariant.{Inv}
use knot_service_source.Msg.Lifetime.HangUp.{Unmapped}
use knot_service_source.Msg.Forwarded.{hang_up_unmaps}
use knot_service_source.Msg.Answered.{InRoom, answer_fits}
use knot_service_source.Msg.Created.{Online, trust_create_lem}
use knot_service_source.Msg.SchemaLost.{send_schemas}
use knot_service_source.Msg.Stopped.{Stopped, msg_stop_lem}
use knot_service_source.Msg.Refused.{stranger_changes_nothing}
use knot_service_source.Msg.Registered.{device_name_fits}
use knot_service_source.Msg.Data.{
  schema_stored, schema_answered, schema_tmp_add, find_schema, msg_schema,
}
use knot_service_source.Msg.Examples.Service.{service}

abbrev pub room : Opdu
room = record { kind = none; payload_len = 0; result = 0; uuid = []; token = [] }

-- Device 9, called "AB", registers.
abbrev registration : Bytes
registration = 10 ∷ 3 ∷ 9 ∷ 65 ∷ 66 ∷ []

abbrev pub beginning : State service
beginning = msg_start service (1 ∷ []) []

abbrev pub after : {A S : Type 0} → Result (A × S) → S → S
after (ok (a, s)) default = s
after (fault x) default = default

abbrev pub registers : Event
registers = request 5 1 registration room 8

abbrev pub registered : State service
registered = after (handle service registers beginning) beginning

abbrev pub TrustOf : ℕ → State service → Type 0
TrustOf sock s =
    (a : ℕ) × (t : Trust ℤ) × (lookup sock s.trust_map ≡ some a)
    × (s.heap a ≡ some t)
    × (t.schema_tmp ≡ none)
    × (t.id ≡ 9)
    × (t.pid ≡ 42)

-- Device 9 is registered on socket 5, with node channel 1.
pub registered_lem :
    (handle service registers beginning ≡ ok (tt, registered))
    × ((c : Channel) × (lookup 1 registered.channels ≡ some c))
    × TrustOf 5 registered
unfolding handle msg_start trust_map_get trust_map_add trust_ref trust_unref unref_found
    trust_map_remove trust_map_replace trust_new create_node_channel create_device_watch
    attach_watch publish trust_create create_device_object is_uuid_valid is_token_valid
    check_credentials mknode_response proto_mknode proto_signin proto_rmnode c_string
    msg_register_has_valid_length msg_register_has_valid_device_name msg_register_get_device_name
    get_socket_credentials msg_credential_create register_signed_in register_created register_new
    register_valid msg_register finish dispatch msg_process parse_device_info
registered_lem =
    (refl, (record { node_sock = 5; trust = 0 }, refl), (0, _, refl, refl, refl, refl, refl))

abbrev pub light : MsgSchema
light = record { sensor_id = 3; value_type = 1; unit = 1; type_id = 1; name = 97 ∷ [] }

-- A trust made for socket 5, a first sensor's schema, and the last one.
abbrev pub created : State service
created =
    after (trust_create service 5 1 (7 ∷ 7 ∷ []) (8 ∷ 8 ∷ []) 9 42 false none none beginning)
      beginning

abbrev pub begun : State service
begun = after (send_schemas service 5 1 (light ∷ []) created) created

abbrev pub finished : State service
finished = after (msg_schema service 5 1 (record light { sensor_id = 4 }) true begun) begun

pub finished_lem :
    (trust_create service 5 1 (7 ∷ 7 ∷ []) (8 ∷ 8 ∷ []) 9 42 false none none beginning
      ≡ ok (tt, created))
    × (send_schemas service 5 1 (light ∷ []) created ≡ ok (tt, begun))
    × (msg_schema service 5 1 (record light { sensor_id = 4 }) true begun ≡ ok (0, finished))
unfolding msg_start trust_map_get trust_map_add trust_ref trust_unref unref_found trust_map_remove
    trust_map_replace trust_new create_node_channel create_device_watch attach_watch publish
    trust_create msg_schema schema_stored schema_answered schema_tmp_add find_schema proto_schema
    create_schema_list_object append_schemas create_schema_object send_schemas
finished_lem = (refl, refl, refl)

pub beginning-Reachable : Reachable service beginning
beginning-Reachable = started (1 ∷ []) []

registered-Reachable : Reachable service registered
registered-Reachable =
    handled registers beginning registered (started (1 ∷ []) []) tt registered_lem.0

beginning-empty : (sock : ℕ) → lookup sock beginning.trust_map ≡ none
unfolding msg_start
beginning-empty sock = refl

-- The answer to the registration.
abbrev credentials_sent : Answer
credentials_sent = (
  pos 7,
  record { kind = some 11; payload_len = 5; result = 0; uuid = 7 ∷ 7 ∷ []; token = 8 ∷ 8 ∷ [] },
)

answered : msg_process service 5 1 registration room 8 beginning ≡ ok (credentials_sent, registered)
unfolding handle msg_start trust_map_get trust_map_add trust_ref trust_unref unref_found
    trust_map_remove trust_map_replace trust_new create_node_channel create_device_watch
    attach_watch publish trust_create create_device_object is_uuid_valid is_token_valid
    check_credentials mknode_response proto_mknode proto_signin proto_rmnode c_string
    msg_register_has_valid_length msg_register_has_valid_device_name msg_register_get_device_name
    get_socket_credentials msg_credential_create register_signed_in register_created register_new
    register_valid msg_register finish dispatch msg_process parse_device_info
answered = refl

answer_fits_example : InRoom service 8 credentials_sent
answer_fits_example =
    answer_fits service 5 1 registration room 8 credentials_sent beginning registered
      (record { result = omega arith; credential = omega arith; header = omega arith }) answered

no_use_after_free_example : handle service (hung_up 1) registered ≢ fault dangling
no_use_after_free_example =
    no_use_after_free service (hung_up 1) registered registered-Reachable registered_lem.1

Reachable-Inv_example : Inv service [] none registered
Reachable-Inv_example = Reachable-Inv service registered registered-Reachable

hang_up_unmaps_example :
    Holds
      (λ _ s'. Unmapped service 5 registered s')
      (on_node_channel_disconnected service 5 registered)
hang_up_unmaps_example = hang_up_unmaps service 5 registered registered-Reachable

abbrev pub reading : MsgData ℤ
reading = record { hdr = no_header; sensor_id = 3; payload = pos 20 }

abbrev confirmation : MsgItem
confirmation = record { hdr = no_header; sensor_id = 3 }

-- A sensor's data.
abbrev data_request : Bytes
data_request = 14 ∷ 2 ∷ 3 ∷ 20 ∷ []

stranger_changes_nothing_example :
    (a : Answer) × (msg_process service 5 1 data_request room 8 beginning ≡ ok (a, beginning))
stranger_changes_nothing_example =
    stranger_changes_nothing service 5 1 data_request room 8 beginning (beginning-empty 5) refl refl

device_name_fits_example :
    (length (msg_register_get_device_name service 3 (record { id = 9; dev_name = 65 ∷ 66 ∷ [] }))
      < 4)
    × All
        (λ c. c ≢ 0)
        (msg_register_get_device_name service 3 (record { id = 9; dev_name = 65 ∷ 66 ∷ [] }))
device_name_fits_example =
    device_name_fits service 3 (record { id = 9; dev_name = 65 ∷ 66 ∷ [] }) (omega arith)

abbrev again : MsgRegister
again = record { id = 9; dev_name = 65 ∷ 66 ∷ [] }

valid_again :
    (msg_register_has_valid_length service 5 ≡ true)
    × (msg_register_has_valid_device_name service again ≡ true)
unfolding msg_register_has_valid_length msg_register_has_valid_device_name
valid_again = (refl, refl)

-- Socket 5 gets another device, in place of the one that it has.
trust_create_example :
    (result : Unit {0}) × (s' : State service) × (trust_create service 5 1
        (7 ∷ 9 ∷ [])
        (8 ∷ 9 ∷ [])
        10
        42
        true
        (some (light ∷ []))
        none
        registered
      ≡ ok (result, s'))
    × Online service 1
        (7 ∷ 9 ∷ [])
        (8 ∷ 9 ∷ [])
        10
        42
        true
        (some (light ∷ []))
        none
        5
        registered.next
        s'
trust_create_example =
    trust_create_lem service 5 1 10 42 (7 ∷ 9 ∷ []) (8 ∷ 9 ∷ []) true (some (light ∷ [])) none
      registered registered-Reachable

msg_stop_example : Holds (λ _ s'. Stopped service registered s') (msg_stop service registered)
msg_stop_example = msg_stop_lem service registered registered-Reachable
