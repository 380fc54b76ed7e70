-- ===== src/Msg/Examples/Service.antt =====
-- A cloud that accepts everything and writes down what it is asked, and protocol headers with small
-- constants; `sample` is what the texts of the cloud stand for.
use Prim.Native.String.{compare}
use Prim.Native.Nat.{Ordering}
use knot_service_source.Common.{
  ℕ, zero, suc, ℤ, pos, negsuc, Bool, true, false, Option, none, some, List, [], ◌∷◌, String,
  length, if◌then◌else◌, ◌==◌,
}
use knot_service_source.Env.{Env, Response}
use knot_service_source.Env.Json.{JsonC, JsonType, json_int, json_object, json_array, json_string}
use knot_service_source.Env.Headers.{Protocol}
use knot_service_source.Env.Messages.{Bytes, header_of, no_header}

mutual
  pub data Json : Type 0 where
    number : ℤ → Json
    text : Bytes → Json
    array : Items → Json
    object : Members → Json

  pub data Items : Type 0 where
    end : Items
    entry : Json → Items → Items

  pub data Members : Type 0 where
    stop : Members
    member : String → Json → Members → Members

abbrev same_key : String → String → Bool
same_key a b = elim (compare a b) [ Ordering.eq ↦ true | _ ↦ false ]

abbrev get_member : Members → String → Option (Option Json)
get_member stop key = none
get_member (member name value rest) key =
    let others = get_member rest key in if same_key name key then some (some value) else others

abbrev get_ex : Json → String → Option (Option Json)
get_ex (object members) key = get_member members key
get_ex (number n) key = none
get_ex (text t) key = none
get_ex (array items) key = none

abbrev kind_of : Json → JsonType
kind_of (number n) = json_int
kind_of (text t) = json_string
kind_of (array items) = json_array
kind_of (object members) = json_object

abbrev count : Items → ℕ
count end = 0
count (entry j rest) = suc (count rest)

abbrev nth : Items → ℕ → Option Json
nth end i = none
nth (entry j rest) zero = some j
nth (entry j rest) (suc i) = nth rest i

abbrev append : Items → Json → Items
append end x = entry x end
append (entry j rest) x = entry j (append rest x)

abbrev add_member : Option Json → String → Option Json → Option Json
add_member (some (object members)) key (some value) = some (object (member key value members))
add_member other key value = other

abbrev add_item : Option Json → Option Json → Option Json
add_item (some (array items)) (some value) = some (array (append items value))
add_item other value = other

abbrev int_of : Json → ℤ
int_of (number n) = n
int_of (text t) = pos 0
int_of (array items) = pos 0
int_of (object members) = pos 0

abbrev string_of : Json → Bytes
string_of (text t) = t
string_of (number n) = []
string_of (array items) = []
string_of (object members) = []

-- A configuration of sensor `id` for the flags.
abbrev pub config_of : ℕ → ℕ → Json
config_of id flags =
    object (member "sensor_id" (number (pos id)) (member "event_flags" (number (pos flags)) stop))

abbrev schema_of : ℕ → Json
schema_of id = object (
    member "sensor_id" (number (pos id)) (
      member "value_type" (number (pos 1)) (
        member "unit" (number (pos 1))
          (member "type_id" (number (pos 1)) (member "name" (text (97 ∷ 98 ∷ 99 ∷ [])) stop)))))

-- What the texts of the cloud mean.
abbrev pub sample : Response → Option Json
sample none = none
sample (some []) = none
sample (some (code ∷ rest)) =
    if code == 1
    then some (object (member "uuid" (text (7 ∷ 7 ∷ [])) (member "token" (text (8 ∷ 8 ∷ [])) stop)))
    else if code == 2
    then some (object (member "config" (array (entry (config_of 3 8) end)) stop))
    else if code == 3
    then some (object (member "schema" (array (entry (schema_of 3) end)) stop))
    else if code == 4
    then some (object (member "config" (array (entry (config_of 3 1) end)) stop))
    else none

abbrev json : JsonC
json = record {
  Json = Json;
  Double = ℕ;
  tokener_parse = sample;
  to_json_string = λ _. 5 ∷ [];
  type_of = kind_of;
  object_get_ex = get_ex;
  array_length = λ j. elim j [ array items ↦ count items | _ ↦ 0 ];
  array_get_idx = λ j i. elim j [ array items ↦ nth items i | _ ↦ none ];
  get_int = int_of;
  get_boolean = λ _. false;
  get_string = string_of;
  new_object = some (object stop);
  new_array = some (array end);
  new_string = λ t. some (text t);
  new_int = λ n. some (number n);
  new_int64 = λ n. some (number (pos n));
  new_boolean = λ _. none;
  new_double = λ _. none;
  object_add = add_member;
  array_add = add_item;
  double_of = λ _. 0;
  double_add = λ _ _. 0;
  double_mul = λ _ _. 0;
  double_div = λ _ _. 0;
  pow10 = λ _. 0;
  scan_decimal = λ _. none;
  sha1 = λ t. t;
}

abbrev nat : ℤ → ℕ
nat (pos n) = n
nat (negsuc n) = 0

-- A request is its type, the length of its payload and the payload.
abbrev byte : ℕ → Bytes → ℕ
byte i [] = 0
byte zero (b ∷ rest) = b
byte (suc i) (b ∷ rest) = byte i rest

abbrev protocol : Protocol
protocol = record {
  success = 0;
  error_unknown = 1;
  invalid_data = 2;
  no_data = 3;
  register_invalid_devicename = 4;
  credential_unauthorized = 5;
  schema_empty = 6;
  cloud_failure = 7;
  register_req = 10;
  register_resp = 11;
  unregister_req = 12;
  unregister_resp = 13;
  data_req = 14;
  data_resp = 15;
  auth_req = 16;
  auth_resp = 17;
  schema_req = 18;
  schema_resp = 19;
  schema_end_req = 20;
  schema_end_resp = 21;
  config_resp = 22;
  set_config = 23;
  set_data = 24;
  get_data = 25;
  uuid_len = 2;
  token_len = 2;
  device_name_len = 4;
  schema_name_len = 3;
  header_size = 2;
  msg_size = 8;
  result_size = 1;
  id_size = 1;
  credential_size = 7;
  sensor_id_size = 1;
  config_values_size = 3;
  data_payload_size = 2;
  flag_none = 0;
  flag_time = 1;
  flag_lower = 2;
  flag_upper = 4;
  flag_change = 8;
  flag_unregistered = 16;
  value_type_int = 1;
  value_type_float = 2;
  value_type_bool = 3;
  value_type_raw = 4;
  knot_schema_is_valid = λ _ _ _. pos 0;
  hdr_type = byte 0;
  hdr_payload_len = byte 1;
  as_register = λ b. record { id = byte 2 b; dev_name = byte 3 b ∷ byte 4 b ∷ [] };
  as_auth = λ b. record { uuid = 7 ∷ 7 ∷ []; token = 8 ∷ 8 ∷ [] };
  as_schema =
      λ b. record { sensor_id = byte 2 b; value_type = 1; unit = 1; type_id = 1; name = 97 ∷ [] };
  Val = ℤ;
  val_zero = pos 0;
  set_b = λ _ v. v;
  set_i = λ n _ v. n;
  set_f = λ n _ _ v. n;
  val_b = λ _. false;
  val_i = λ v. v;
  val_f_int = λ v. v;
  val_f_dec = λ _. pos 0;
  val_f_multiplier = λ _. pos 1;
  as_data = λ b. record { hdr = no_header; sensor_id = byte 2 b; payload = pos (byte 3 b) };
  as_item = λ b. record { hdr = no_header; sensor_id = byte 2 b };
  to_sensor_id = nat;
  to_event_flags = nat;
  to_time_sec = nat;
  to_value_type = nat;
  to_unit = nat;
  to_type_id = nat;
}

-- The log of what the cloud was asked: 1 to make a node, 2 to sign one in, 3 to remove it, and so on.
abbrev asked : ℕ → Response → List ℕ → ℤ × Response × List ℕ
asked op response log = (pos 0, response, op ∷ log)

abbrev pub service : Env
service = record {
  json = json;
  protocol = protocol;
  World = List ℕ;
  mknode = λ _ _ _. asked 1 (some (1 ∷ []));
  signin = λ _ _ _ _. asked 2 (some (3 ∷ []));
  rmnode = λ _ _ _ _. asked 3 none;
  schema = λ _ _ _ _ _. asked 4 none;
  send_data = λ _ _ _ _ _. asked 5 none;
  fetch = λ _ _ _ _. asked 6 (some (1 ∷ []));
  setdata = λ _ _ _ _ _. asked 7 none;
  async = λ _ _ _ log. (length log, 8 ∷ log);
  async_stop = λ _ _ log. (true, 9 ∷ log);
  peer_cred = λ _ _. (pos 0, 42);
  write = λ _ msg n log. (pos n, 0, (header_of msg).kind ∷ log);
  stack = λ _. none;
}
