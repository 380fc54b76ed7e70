-- ===== src/Msg/Cloud.antt =====
-- src/msg.c: the requests to the cloud, `proto_mknode` to `proto_data`, and the JSON that they send.
use knot_service_source.Common.{
  ℕ, zero, suc, ◌+◌, ◌/◌, ℤ, pos, negsuc, Bool, true, false, ◌&&◌, not, Option, none, some, List,
  [], ◌∷◌, length, if◌then◌else◌, ◌==◌, ltb, is_neg, is_some,
}
use knot_service_source.Common.Queue.{Queue, entries}
use knot_service_source.Env.{Env, Response}
use knot_service_source.Env.Messages.{Bytes, MsgSchema}
use knot_service_source.Common.Monad.{pure, gets, or_fault, ◌>>=◌, null_pointer}
use knot_service_source.Msg.State.{Config, Action, outside}
use knot_service_source.Msg.Parse.{parse_device_info, parse_device_schema, parse_device_config}

-- The result of a call with outputs: a result code other than KNOT_SUCCESS, or KNOT_SUCCESS and the
-- outputs.
pub data Outcome (A : Type 0) : Type 0 where
  failed : ℕ → Outcome A
  success : A → Outcome A

-- The digits of a number in decimal; `fuel` digits at most.
unfoldable pub digits : ℕ → ℕ → ℕ
digits zero n = 0
digits (suc fuel) n = elim (ltb n 10) [ true ↦ 1 | false ↦ 1 + digits fuel (n / 10) ]

-- The characters that `sprintf("%d")` prints of an `int`, which has ten digits at most.
unfoldable pub printed_length : ℤ → ℕ
unfolding digits
printed_length (pos n) = digits 10 n
printed_length (negsuc n) = 1 + digits 10 (n + 1)

module _ (e : Env) where
  unfoldable pub create_device_object : Bytes → ℕ → Bytes → Option e.Json
  create_device_object device_name device_id owner_uuid = elim e.new_object [
    | none ↦ none
    | some device ↦
        e.object_add
          (e.object_add
            (e.object_add (e.object_add (some device) "type" (e.new_string device_kind)) "name"
              (e.new_string device_name))
            "id" (e.new_int64 device_id))
          "owner" (e.new_string owner_uuid)
  ]
    where
      -- "KNOTDevice"
      device_kind : Bytes
      device_kind = b'K' ∷ b'N' ∷ b'O' ∷ b'T' ∷ b'D' ∷ b'e' ∷ b'v' ∷ b'i' ∷ b'c' ∷ b'e' ∷ []

  unfoldable pub is_uuid_valid : Bytes → Bool
  is_uuid_valid uuid = length uuid == e.uuid_len

  unfoldable pub is_token_valid : Bytes → Bool
  is_token_valid token = length token == e.token_len

  -- The checks of `proto_mknode` on what it got: `strlen` reads both texts.
  unfoldable pub check_credentials : Response × Response → Action e (Outcome (Bytes × Bytes))
  unfolding is_uuid_valid is_token_valid
  check_credentials (uuid, token) = do
    u ← or_fault uuid null_pointer
    k ← or_fault token null_pointer
    pure (if is_uuid_valid u && is_token_valid k then success (u, k) else failed e.cloud_failure)

  unfoldable pub mknode_response : ℤ × Response → Action e (Outcome (Bytes × Bytes))
  unfolding check_credentials
  mknode_response (err, response) =
      if is_neg err then pure (failed e.cloud_failure) else elim (parse_device_info e response) [
        | none ↦ pure (failed e.cloud_failure)
        | some credentials ↦ check_credentials credentials
      ]

  -- A call of the driver: its error and the response.
  abbrev pub call_driver : (e.World → ℤ × Response × e.World) → Action e (ℤ × Response)
  call_driver op = outside e λ w. let (err, response, w') = op w in ((err, response), w')

  unfoldable pub proto_mknode : ℕ → Bytes → ℕ → Bytes → Action e (Outcome (Bytes × Bytes))
  unfolding create_device_object mknode_response
  proto_mknode proto_sock device_name device_id owner_uuid =
      elim (create_device_object device_name device_id owner_uuid) [
        | none ↦ pure (failed e.error_unknown)
        | some device ↦ do
          answer ← call_driver (e.mknode proto_sock (e.to_json_string (some device)) none)
          mknode_response answer
      ]

  -- `want` is false where the caller passes NULL for `schema` and `config`. The response buffer is
  -- an automatic variable that nothing has initialised.
  unfoldable pub proto_signin :
      Bool → ℕ → Bytes → Bytes → Action e (Outcome (Queue MsgSchema × Queue (Config e.Val)))
  proto_signin want proto_sock uuid token = do
    garbage ← gets λ s. e.stack s.world
    answer ← call_driver (e.signin proto_sock uuid token garbage)
    pure (
        if not (is_some answer.1)
        then failed e.cloud_failure
        else if is_neg answer.0
        then failed e.credential_unauthorized
        else success (
          if want then parse_device_schema e answer.1 else none,
          if want then parse_device_config e answer.1 else none,
        ))

  unfoldable pub proto_rmnode : ℕ → Bytes → Bytes → Action e ℕ
  proto_rmnode proto_sock uuid token = do
    answer ← call_driver (e.rmnode proto_sock uuid token none)
    pure (if is_neg answer.0 then e.cloud_failure else e.success)

  unfoldable pub create_schema_object : MsgSchema → Option e.Json
  create_schema_object schema =
      e.object_add
        (e.object_add
          (e.object_add
            (e.object_add (e.object_add e.new_object "sensor_id" (e.new_int (pos schema.sensor_id)))
              "value_type" (e.new_int (pos schema.value_type)))
            "unit" (e.new_int (pos schema.unit)))
          "type_id" (e.new_int (pos schema.type_id)))
        "name" (e.new_string schema.name)

  -- `l_queue_foreach` with `create_and_append`.
  unfoldable pub append_schemas : Option e.Json → List MsgSchema → Option e.Json
  append_schemas jschema_list [] = jschema_list
  append_schemas jschema_list (schema ∷ rest) =
      append_schemas (e.array_add jschema_list (create_schema_object schema)) rest

  unfoldable pub create_schema_list_object : Queue MsgSchema → Option e.Json
  unfolding create_schema_object append_schemas
  create_schema_list_object schema_list =
      e.object_add e.new_object "schema" (append_schemas e.new_array (entries schema_list))

  unfoldable pub proto_schema : ℕ → Bytes → Bytes → Queue MsgSchema → Action e ℕ
  unfolding create_schema_list_object
  proto_schema proto_sock uuid token schema_list = do
    let request = e.to_json_string (create_schema_list_object schema_list)
    answer ← call_driver (e.schema proto_sock uuid token request none)
    pure (if is_neg answer.0 then e.cloud_failure else e.success)

  -- The multiplier times the integer part and the decimals, as many as are printed.
  unfoldable pub knot_data_as_double : e.Val → e.Double
  unfolding printed_length
  knot_data_as_double payload = e.double_mul (e.double_of (e.val_f_multiplier payload)) (
      e.double_add (e.double_of (e.val_f_int payload)) (
        e.double_div (e.double_of (e.val_f_dec payload))
          (e.pow10 (printed_length (e.val_f_dec payload)))))

  unfoldable pub create_data_object : ℕ → ℕ → e.Val → Option e.Json
  unfolding knot_data_as_double
  create_data_object sensor_id value_type value =
      let object = e.object_add e.new_object "sensor_id" (e.new_int (pos sensor_id)) in
      if value_type == e.value_type_int
      then e.object_add object "value" (e.new_int (e.val_i value))
      else if value_type == e.value_type_float
      then e.object_add object "value" (e.new_double (knot_data_as_double value))
      else if value_type == e.value_type_bool
      then e.object_add object "value" (e.new_boolean (e.val_b value))
      else if value_type == e.value_type_raw
      then object
      else none

  unfoldable pub proto_data : ℕ → Bytes → Bytes → ℕ → ℕ → e.Val → Action e ℕ
  unfolding create_data_object
  proto_data proto_sock uuid token sensor_id value_type value =
      elim (create_data_object sensor_id value_type value) [
        | none ↦ pure e.invalid_data
        | some object ↦ do
          let request = e.to_json_string (some object)
          answer ← call_driver (e.send_data proto_sock uuid token request none)
          pure (if is_neg answer.0 then e.cloud_failure else e.success)
      ]
