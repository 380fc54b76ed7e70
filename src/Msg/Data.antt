-- ===== src/Msg/Data.antt =====
-- src/msg.c: `msg_schema`, `msg_data`, `msg_config_resp` and `msg_setdata_resp`, the messages of a
-- registered device.
use knot_service_source.Common.{
  ℕ, ℤ, pos, Bool, true, false, Option, none, some, List, [], ◌∷◌, String, find?, if◌then◌else◌,
  ◌==◌, is_neg, is_zero, eq_ℤ,
}
use knot_service_source.Common.Queue.{Queue, entries, push_tail}
use knot_service_source.Env.{Env, Response}
use knot_service_source.Env.Json.{json_array}
use knot_service_source.Env.Messages.{Bytes, MsgSchema, MsgData, MsgItem}
use knot_service_source.Common.Monad.{pure, fail, ◌>>=◌, ◌>>◌, uninitialised}
use knot_service_source.Msg.State.{Trust, Action, deref, assign}
use knot_service_source.Msg.Trust.{trust_map_get}
use knot_service_source.Msg.Config.{trust_config_confirm}
use knot_service_source.Msg.Parse.{get_int, items}
use knot_service_source.Msg.Cloud.{proto_schema, proto_data, call_driver}

-- `l_queue_find` with `schema_sensor_id_cmp`.
unfoldable pub find_schema : Queue MsgSchema → ℕ → Option MsgSchema
find_schema queue sensor_id = find? (λ schema. sensor_id == schema.sensor_id) (entries queue)

-- `trust_sensor_schema_tmp_add`, if the sensor is not there yet.
unfoldable pub schema_tmp_add : Queue MsgSchema → MsgSchema → Queue MsgSchema
unfolding find_schema
schema_tmp_add schema_tmp schema = elim (find_schema schema_tmp schema.sensor_id) [
  | none ↦ push_tail schema_tmp schema
  | some known ↦ schema_tmp
]

module _ (e : Env) where
  -- The end of `msg_schema`, after the cloud's answer.
  unfoldable pub schema_answered : ℕ → ℕ → Action e ℕ
  schema_answered trust result =
      if result == e.success
      then (do
        assign e trust (λ t. record t { schema = t.schema_tmp; schema_tmp = none })
        pure result)
      else (do assign e trust (λ t. record t { schema_tmp = none }); pure result)

  unfoldable pub schema_stored : ℕ → ℕ → Bool → Action e ℕ
  unfolding schema_answered
  schema_stored trust proto_sock false = pure e.success
  schema_stored trust proto_sock true = do
    t ← deref e trust
    result ← proto_schema e proto_sock t.uuid t.token t.schema_tmp
    schema_answered trust result

  unfoldable pub msg_schema : ℕ → ℕ → MsgSchema → Bool → Action e ℕ
  unfolding schema_stored schema_tmp_add trust_map_get
  msg_schema node_sock proto_sock schema eof = do
    found ← trust_map_get e node_sock
    elim found [
      | none ↦ pure e.credential_unauthorized
      | some trust ↦ do
        assign e trust (λ t. record t { rollback = false })
        assign e trust (λ t. record t { schema_tmp = schema_tmp_add t.schema_tmp schema })
        schema_stored trust proto_sock eof
    ]

  -- The entries of the other sensors. A NULL entry ends the loop, and one without a sensor is left
  -- out.
  unfoldable pub other_entries : ℕ → List (Option e.Json) → List (Option e.Json)
  other_entries sensor_id [] = []
  other_entries sensor_id (none ∷ rest) = []
  other_entries sensor_id (some jobjentry ∷ rest) =
      let others = other_entries sensor_id rest in
      elim (e.object_get_ex jobjentry "sensor_id") [
        | none ↦ others
        | some jobjkey ↦
            if eq_ℤ (get_int e jobjkey) (pos sensor_id) then others else some jobjentry ∷ others
      ]

  unfoldable pub add_all : Option e.Json → List (Option e.Json) → Option e.Json
  add_all array [] = array
  add_all array (entry ∷ rest) = add_all (e.array_add array entry) rest

  -- The text that is sent back: the member's array without the sensor.
  unfoldable pub request_without : String → ℕ → e.Json → Bytes
  unfolding other_entries add_all
  request_without key sensor_id array = e.to_json_string (
      e.object_add e.new_object key (add_all e.new_array (other_entries sensor_id (items e array))))

  unfoldable pub send_back :
      String → ℕ → Bytes → Bytes → ℕ → Response → Option (Option e.Json) → Action e (Unit {0})
  unfolding request_without
  send_back key proto_sock uuid token sensor_id json none = pure tt
  send_back key proto_sock uuid token sensor_id json (some none) = pure tt
  send_back key proto_sock uuid token sensor_id json (some (some array)) = elim (e.type_of array) [
    | json_array ↦ do
      call_driver e (e.setdata proto_sock uuid token (request_without key sensor_id array) json)
      pure tt
    | _ ↦ pure tt
  ]

  unfoldable pub fetched : String → ℕ → Bytes → Bytes → ℕ → ℤ × Response → Action e (Unit {0})
  unfolding send_back
  fetched key proto_sock uuid token sensor_id (err, json) =
      if is_neg err then fail uninitialised else elim (e.tokener_parse json) [
        | none ↦ fail uninitialised
        | some jobj ↦ send_back key proto_sock uuid token sensor_id json (e.object_get_ex jobj key)
      ]

  -- The two `update_device_*` differ in the member that they rewrite. Where the fetch fails or its
  -- text is no JSON, the code after `done:` reads pointers that were never initialised.
  abbrev pub update_device : String → ℕ → Bytes → Bytes → ℕ → Action e (Unit {0})
  update_device key proto_sock uuid token sensor_id = do
    answer ← call_driver e (e.fetch proto_sock uuid token none)
    fetched key proto_sock uuid token sensor_id answer

  unfoldable pub update_device_getdata : ℕ → Bytes → Bytes → ℕ → Action e (Unit {0})
  unfolding fetched
  update_device_getdata proto_sock uuid token sensor_id =
      update_device "get_data" proto_sock uuid token sensor_id

  unfoldable pub update_device_setdata : ℕ → Bytes → Bytes → ℕ → Action e (Unit {0})
  unfolding fetched
  update_device_setdata proto_sock uuid token sensor_id =
      update_device "set_data" proto_sock uuid token sensor_id

  -- The schema of the sensor, where `knot_schema_is_valid` accepts it.
  unfoldable pub valid_schema : Trust e.Val → ℕ → Option MsgSchema
  unfolding find_schema
  valid_schema trust sensor_id = elim (find_schema trust.schema sensor_id) [
    | none ↦ none
    | some schema ↦
        if is_zero (e.knot_schema_is_valid schema.type_id schema.value_type schema.unit)
        then some schema
        else none
  ]

  unfoldable pub data_accepted : ℕ → Trust e.Val → MsgData e.Val → Option MsgSchema → Action e ℕ
  unfolding update_device_getdata
  data_accepted proto_sock t kmdata none = pure e.invalid_data
  data_accepted proto_sock t kmdata (some schema) = do
    result ←
        proto_data e proto_sock t.uuid t.token kmdata.sensor_id schema.value_type kmdata.payload
    update_device_getdata proto_sock t.uuid t.token kmdata.sensor_id
    pure result

  unfoldable pub msg_data : ℕ → ℕ → MsgData e.Val → Action e ℕ
  unfolding data_accepted valid_schema trust_map_get
  msg_data node_sock proto_sock kmdata = do
    found ← trust_map_get e node_sock
    elim found [
      | none ↦ pure e.credential_unauthorized
      | some trust ↦ do
        t ← deref e trust
        data_accepted proto_sock t kmdata (valid_schema t kmdata.sensor_id)
    ]

  unfoldable pub msg_config_resp : ℕ → MsgItem → Action e ℕ
  unfolding trust_map_get trust_config_confirm
  msg_config_resp node_sock response = do
    found ← trust_map_get e node_sock
    elim found [
      | none ↦ pure e.credential_unauthorized
      | some trust ↦ do
        assign e trust
            (λ t. record t { config = trust_config_confirm e response.sensor_id t.config })
        pure e.success
    ]

  unfoldable pub setdata_accepted : ℕ → Trust e.Val → MsgData e.Val → Option MsgSchema → Action e ℕ
  unfolding update_device_setdata
  setdata_accepted proto_sock t kmdata none = pure e.invalid_data
  setdata_accepted proto_sock t kmdata (some schema) = do
    update_device_setdata proto_sock t.uuid t.token kmdata.sensor_id
    proto_data e proto_sock t.uuid t.token kmdata.sensor_id schema.value_type kmdata.payload

  unfoldable pub msg_setdata_resp : ℕ → ℕ → MsgData e.Val → Action e ℕ
  unfolding setdata_accepted valid_schema trust_map_get
  msg_setdata_resp node_sock proto_sock kmdata = do
    found ← trust_map_get e node_sock
    elim found [
      | none ↦ pure e.credential_unauthorized
      | some trust ↦ do
        t ← deref e trust
        setdata_accepted proto_sock t kmdata (valid_schema t kmdata.sensor_id)
    ]
