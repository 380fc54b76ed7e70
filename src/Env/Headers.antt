-- ===== src/Env/Headers.antt =====
-- The constants, sizes and message layouts of the KNOT protocol headers. A result code is the byte
-- that stands for it in an answer; a field's width is in the conversion from `int`.
use knot_service_source.Common.{ℕ, ℤ, Bool}
use knot_service_source.Env.Messages.{
  Bytes, MsgRegister, MsgAuthentication, MsgSchema, MsgData, MsgItem,
}

pub record Protocol : Type 1 where
  -- Result codes.
  pub success : ℕ
  pub error_unknown : ℕ
  pub invalid_data : ℕ
  pub no_data : ℕ
  pub register_invalid_devicename : ℕ
  pub credential_unauthorized : ℕ
  pub schema_empty : ℕ
  pub cloud_failure : ℕ
  -- Message types.
  pub register_req : ℕ
  pub register_resp : ℕ
  pub unregister_req : ℕ
  pub unregister_resp : ℕ
  pub data_req : ℕ
  pub data_resp : ℕ
  pub auth_req : ℕ
  pub auth_resp : ℕ
  pub schema_req : ℕ
  pub schema_resp : ℕ
  pub schema_end_req : ℕ
  pub schema_end_resp : ℕ
  pub config_resp : ℕ
  pub set_config : ℕ
  pub set_data : ℕ
  pub get_data : ℕ
  -- Lengths and sizes in bytes.
  pub uuid_len : ℕ
  pub token_len : ℕ
  pub device_name_len : ℕ
  pub schema_name_len : ℕ
  pub header_size : ℕ
  pub msg_size : ℕ
  pub result_size : ℕ
  pub id_size : ℕ
  pub credential_size : ℕ
  pub sensor_id_size : ℕ
  pub config_values_size : ℕ
  pub data_payload_size : ℕ
  -- Event flags.
  pub flag_none : ℕ
  pub flag_time : ℕ
  pub flag_lower : ℕ
  pub flag_upper : ℕ
  pub flag_change : ℕ
  pub flag_unregistered : ℕ
  -- Value types, and `knot_schema_is_valid` of type id, value type and unit.
  pub value_type_int : ℕ
  pub value_type_float : ℕ
  pub value_type_bool : ℕ
  pub value_type_raw : ℕ
  pub knot_schema_is_valid : ℕ → ℕ → ℕ → ℤ
  -- The members of a request, read from its bytes.
  pub hdr_type : Bytes → ℕ
  pub hdr_payload_len : Bytes → ℕ
  pub as_register : Bytes → MsgRegister
  pub as_auth : Bytes → MsgAuthentication
  pub as_schema : Bytes → MsgSchema
  -- `knot_value_types`: zeroed, and its members.
  pub Val : Type 0
  pub val_zero : Val
  pub set_b : Bool → Val → Val
  pub set_i : ℤ → ℤ → Val → Val
  pub set_f : ℤ → ℤ → ℤ → Val → Val
  pub val_b : Val → Bool
  pub val_i : Val → ℤ
  pub val_f_int : Val → ℤ
  pub val_f_dec : Val → ℤ
  pub val_f_multiplier : Val → ℤ
  pub as_data : Bytes → MsgData Val
  pub as_item : Bytes → MsgItem
  -- Assignment of an `int` to a field.
  pub to_sensor_id : ℤ → ℕ
  pub to_event_flags : ℤ → ℕ
  pub to_time_sec : ℤ → ℕ
  pub to_value_type : ℤ → ℕ
  pub to_unit : ℤ → ℕ
  pub to_type_id : ℤ → ℕ
