-- ===== src/Env/Json.antt =====
-- The part of json-c that src/msg.c, the drivers of the cloud and src/settings.c call. `Json` is a
-- `json_object` that is not NULL; a pointer to one is an `Option`. A constructed object is a value:
-- the code adds only to objects that it has just made, or that it has just parsed.
use knot_service_source.Common.{ℕ, ℤ, Option, Bool, List, String}

pub data JsonType : Type 0 where
  json_null json_boolean json_double json_int json_object json_array json_string : JsonType

pub record JsonC : Type 1 where
  pub Json : Type 0
  pub Double : Type 0
  -- A NULL text is passed on as it is.
  pub tokener_parse : Option (List ℕ) → Option Json
  pub to_json_string : Option Json → List ℕ
  pub type_of : Json → JsonType
  -- `none`: there is no such member; `some none`: it is JSON's null, a NULL pointer.
  pub object_get_ex : Json → String → Option (Option Json)
  pub array_length : Json → ℕ
  pub array_get_idx : Json → ℕ → Option Json
  pub get_int : Json → ℤ
  pub get_boolean : Json → Bool
  pub get_string : Json → List ℕ
  -- NULL when there is no memory.
  pub new_object : Option Json
  pub new_array : Option Json
  pub new_string : List ℕ → Option Json
  pub new_int : ℤ → Option Json
  pub new_int64 : ℕ → Option Json
  pub new_boolean : Bool → Option Json
  pub new_double : Double → Option Json
  pub object_add : Option Json → String → Option Json → Option Json
  pub array_add : Option Json → Option Json → Option Json
  -- Arithmetic in `double`, and `pow(10, n)`.
  pub double_of : ℤ → Double
  pub double_add : Double → Double → Double
  pub double_mul : Double → Double → Double
  pub double_div : Double → Double → Double
  pub pow10 : ℕ → Double
  -- `sscanf(s, "%d.%d", &i, &f)`, where it converts both.
  pub scan_decimal : List ℕ → Option (ℤ × ℤ)
  -- `l_checksum` with SHA1, as text.
  pub sha1 : List ℕ → List ℕ
