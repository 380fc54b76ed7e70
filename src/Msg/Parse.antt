-- ===== src/Msg/Parse.antt =====
-- src/msg.c: what the service reads from the cloud's JSON.
use knot_service_source.Common.{
  ℕ, zero, suc, ◌+◌, ◌-◌, ℤ, pos, false, Option, none, some, List, [], ◌∷◌, ◌++◌, String, take,
}
use knot_service_source.Common.Queue.{Queue}
use knot_service_source.Env.{Env, Response}
use knot_service_source.Env.Json.{
  JsonType, json_null, json_boolean, json_double, json_int, json_array, json_string,
}
use knot_service_source.Env.Messages.{Bytes, MsgSchema, MsgData, MsgItem, no_header}
use knot_service_source.Msg.State.{Config}

-- `goto done` where a mandatory member is missing or of the wrong type.
infixl 5 ◌>>=◌
abbrev pub ◌>>=◌ : {A B : Type 0} → Option A → (A → Option B) → Option B
none >>= f = none
some a >>= f = f a

module _ (e : Env) where
  -- `json_object_object_get_ex` through a pointer: NULL has no members.
  abbrev pub get_ex : Option e.Json → String → Option (Option e.Json)
  get_ex none key = none
  get_ex (some obj) key = e.object_get_ex obj key

  -- `json_object_get_type` through a pointer: NULL is JSON's null.
  abbrev pub get_type : Option e.Json → JsonType
  get_type none = json_null
  get_type (some obj) = e.type_of obj

  -- `json_object_get_int` through a pointer.
  abbrev pub get_int : Option e.Json → ℤ
  get_int none = pos 0
  get_int (some obj) = e.get_int obj

  -- The value where it is of type int.
  abbrev pub as_int : Option e.Json → Option ℤ
  as_int value = elim (get_type value) [ json_int ↦ some (get_int value) | _ ↦ none ]

  abbrev pub as_string : Option e.Json → Option Bytes
  as_string none = none
  as_string (some obj) = elim (e.type_of obj) [ json_string ↦ some (e.get_string obj) | _ ↦ none ]

  abbrev pub as_array : Option e.Json → Option e.Json
  as_array none = none
  as_array (some obj) = elim (e.type_of obj) [ json_array ↦ some obj | _ ↦ none ]

  -- The entries that a loop `for (i = 0; i < length; i++)` gets, from index `i` on.
  unfoldable pub items_from : e.Json → ℕ → ℕ → List (Option e.Json)
  items_from array i zero = []
  items_from array i (suc rounds) = e.array_get_idx array i ∷ items_from array (i + 1) rounds

  abbrev pub items : e.Json → List (Option e.Json)
  items array = items_from array 0 (e.array_length array)

  unfoldable pub parse_json_value_types : e.Json → e.Val → e.Val
  parse_json_value_types jobj limit = elim (e.type_of jobj) [
    | json_boolean ↦ e.set_b (e.get_boolean jobj) limit
    | json_double ↦ elim (e.scan_decimal (e.get_string jobj)) [
      | none ↦ limit
      | some (ipart, fpart) ↦ e.set_f ipart fpart (pos 1) limit
    ]
    | json_int ↦ e.set_i (e.get_int jobj) (pos 1) limit
    | _ ↦ limit
  ]

  -- A member that may be missing, but has to be a number or a Boolean where it is there.
  abbrev pub value_member : Option (Option e.Json) → Option e.Val
  value_member none = some e.val_zero
  value_member (some none) = none
  value_member (some (some obj)) = elim (e.type_of obj) [
    | json_int ↦ some (parse_json_value_types obj e.val_zero)
    | json_double ↦ some (parse_json_value_types obj e.val_zero)
    | json_boolean ↦ some (parse_json_value_types obj e.val_zero)
    | _ ↦ none
  ]

  abbrev pub int_member : Option (Option e.Json) → Option ℤ
  int_member none = some (pos 0)
  int_member (some value) = as_int value

  -- The `uuid` and `token` of a response; a NULL text where the member is JSON's null.
  unfoldable pub parse_device_info : Response → Option (Response × Response)
  parse_device_info json_str = do
    jobj ← e.tokener_parse json_str
    json_uuid ← e.object_get_ex jobj "uuid"
    json_token ← e.object_get_ex jobj "token"
    some (get_text json_uuid, get_text json_token)
    where
      get_text : Option e.Json → Response
      get_text none = none
      get_text (some obj) = some (e.get_string obj)

  unfoldable pub schema_entry : Option e.Json → Option MsgSchema
  schema_entry jobjentry = do
    sensor_id ← as_int (← get_ex jobjentry "sensor_id")
    value_type ← as_int (← get_ex jobjentry "value_type")
    unit ← as_int (← get_ex jobjentry "unit")
    type_id ← as_int (← get_ex jobjentry "type_id")
    name ← as_string (← get_ex jobjentry "name")
    some (record {
      sensor_id = e.to_sensor_id sensor_id;
      value_type = e.to_value_type value_type;
      unit = e.to_unit unit;
      type_id = e.to_type_id type_id;
      name = take (e.schema_name_len - 1) name;
    })

  -- The first malformed entry ends the loop; what stands before it is kept.
  unfoldable pub schema_loop : List MsgSchema → List (Option e.Json) → List MsgSchema
  unfolding schema_entry
  schema_loop list [] = list
  schema_loop list (jobjentry ∷ rest) =
      let entry = schema_entry jobjentry in
      elim entry [ none ↦ list | some schema ↦ schema_loop (list ++ schema ∷ []) rest ]

  -- An empty list becomes NULL.
  abbrev pub null_if_empty : List MsgSchema → Queue MsgSchema
  null_if_empty [] = none
  null_if_empty (x ∷ xs) = some (x ∷ xs)

  abbrev pub schema_array : Option (Option e.Json) → List MsgSchema
  schema_array none = []
  schema_array (some value) = elim (as_array value) [
    | none ↦ []
    | some array ↦ schema_loop [] (items array)
  ]

  unfoldable pub parse_device_schema : Response → Queue MsgSchema
  unfolding schema_loop
  parse_device_schema json_str = elim (e.tokener_parse json_str) [
    | none ↦ none
    | some jobj ↦ null_if_empty (schema_array (e.object_get_ex jobj "schema"))
  ]

  -- A loop that gives the whole list up at the first malformed entry.
  unfoldable pub all_entries :
      {A : Type 0} → (Option e.Json → Option A) → List (Option e.Json) → Option (List A)
  all_entries parse [] = some []
  all_entries parse (jobjentry ∷ rest) = do
    entry ← parse jobjentry
    others ← all_entries parse rest
    some (entry ∷ others)

  unfoldable pub config_entry : Option e.Json → Option (Config e.Val)
  unfolding parse_json_value_types
  config_entry none = none
  config_entry (some jobjentry) = do
    sensor_id ← as_int (← e.object_get_ex jobjentry "sensor_id")
    event_flags ← as_int (← e.object_get_ex jobjentry "event_flags")
    time_sec ← int_member (e.object_get_ex jobjentry "time_sec")
    lower_limit ← value_member (e.object_get_ex jobjentry "lower_limit")
    upper_limit ← value_member (e.object_get_ex jobjentry "upper_limit")
    some (record {
      kmcfg = record {
        hdr = no_header;
        sensor_id = e.to_sensor_id sensor_id;
        event_flags = e.to_event_flags event_flags;
        time_sec = e.to_time_sec time_sec;
        lower_limit = lower_limit;
        upper_limit = upper_limit;
      };
      hash = e.sha1 (e.to_json_string (some jobjentry));
      confirmed = false;
    })

  abbrev pub member_array : Response → String → Option e.Json
  member_array json_str key = do
    jobj ← e.tokener_parse json_str
    value ← e.object_get_ex jobj key
    as_array value

  unfoldable pub parse_device_config : Response → Queue (Config e.Val)
  unfolding config_entry all_entries
  parse_device_config json_str = do
    array ← member_array json_str "config"
    all_entries config_entry (items array)

  unfoldable pub setdata_entry : Option e.Json → Option (MsgData e.Val)
  unfolding parse_json_value_types
  setdata_entry none = none
  setdata_entry (some jobjentry) = do
    sensor_id ← as_int (← e.object_get_ex jobjentry "sensor_id")
    value ← value_member (e.object_get_ex jobjentry "value")
    some (record { hdr = no_header; sensor_id = e.to_sensor_id sensor_id; payload = value })

  unfoldable pub parse_device_setdata : Response → Queue (MsgData e.Val)
  unfolding setdata_entry all_entries
  parse_device_setdata json_str = do
    array ← member_array json_str "set_data"
    all_entries setdata_entry (items array)

  unfoldable pub getdata_entry : Option e.Json → Option MsgItem
  getdata_entry none = none
  getdata_entry (some jobjentry) = do
    sensor_id ← as_int (← e.object_get_ex jobjentry "sensor_id")
    some (record { hdr = no_header; sensor_id = e.to_sensor_id sensor_id })

  unfoldable pub parse_device_getdata : Response → Queue MsgItem
  unfolding getdata_entry all_entries
  parse_device_getdata json_str = do
    array ← member_array json_str "get_data"
    all_entries getdata_entry (items array)
