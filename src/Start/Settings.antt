-- ===== src/Start/Settings.antt =====
-- src/settings.c: the command line and the configuration file.
use knot_service_source.Common.{
  ℕ, ◌-◌, ◌%◌, ◌^◌, ℤ, pos, negsuc, Bool, Option, none, some, String, if◌then◌else◌, ◌==◌,
}
use knot_service_source.Env.Messages.{Bytes}
use knot_service_source.Env.Json.{JsonC}

-- `struct settings`.
pub record Settings : Type 0 where
  pub use_ell : Bool
  pub config_path : Option Bytes
  pub host : Option Bytes
  pub port : ℕ
  pub proto : Option Bytes
  pub uuid : Option Bytes
  pub tty : Option Bytes
  pub detach : Bool
  pub run_as_nobody : Bool

-- json-c, and the file system behind `json_object_from_file`.
pub record Files : Type 1 where
  pub json : JsonC
  pub open json use *
  pub object_from_file : Bytes → Option Json

-- The bits of an `int`, as an `unsigned int`.
abbrev pub to_unsigned : ℤ → ℕ
to_unsigned (pos n) = n % 2 ^ 32
to_unsigned (negsuc n) = 2 ^ 32 - 1 - n % 2 ^ 32

module _ (f : Files) where
  -- A member of a pointer; nothing where there is none.
  abbrev pub get : Option f.Json → String → Option (Option f.Json)
  get none name = none
  get (some root) name = f.object_get_ex root name

  abbrev pub text_of : Option f.Json → Option Bytes
  text_of none = none
  text_of (some obj) = some (f.get_string obj)

  abbrev pub int_of : Option f.Json → ℕ
  int_of none = 0
  int_of (some obj) = to_unsigned (f.get_int obj)

  -- The text is NULL for JSON's null.
  unfoldable pub get_as_string : Option f.Json → String → Option (Option Bytes)
  get_as_string root name = elim (get root name) [ none ↦ none | some obj ↦ some (text_of obj) ]

  unfoldable pub get_as_int : Option f.Json → String → Option ℕ
  get_as_int root name = elim (get root name) [ none ↦ none | some obj ↦ some (int_of obj) ]

  -- The command line's host goes before the file's, and its port, unless that is 0.
  unfoldable pub host_setting : Option f.Json → Option Bytes → Option (Option Bytes)
  unfolding get_as_string
  host_setting cloud none = get_as_string cloud "serverName"
  host_setting cloud (some host) = some (some host)

  unfoldable pub port_setting : Option f.Json → ℕ → Option ℕ
  unfolding get_as_int
  port_setting cloud port = if port == 0 then get_as_int cloud "port" else some port

  abbrev pub with_port : Settings → Bytes → Option Bytes → ℕ → Settings
  with_port settings uuid host port = record settings { uuid = some uuid; host = host; port = port }

  -- A UUID that is null is refused.
  unfoldable pub with_uuid : Option f.Json → Settings → Option Bytes → Option Settings
  unfolding host_setting port_setting
  with_uuid cloud settings none = none
  with_uuid cloud settings (some uuid) = elim (host_setting cloud settings.host) [
    | none ↦ none
    | some host ↦ elim (port_setting cloud settings.port) [
      | none ↦ none
      | some port ↦ some (with_port settings uuid host port)
    ]
  ]

  unfoldable pub cloud_settings : Option f.Json → Settings → Option Settings
  unfolding get_as_string with_uuid
  cloud_settings cloud settings = elim (get_as_string cloud "uuid") [
    | none ↦ none
    | some uuid ↦ with_uuid cloud settings uuid
  ]

  -- Nothing is -EINVAL.
  unfoldable pub parse_config_file : Bytes → Settings → Option Settings
  unfolding cloud_settings
  parse_config_file config_path settings = elim (f.object_from_file config_path) [
    | none ↦ none
    | some root ↦ elim (f.object_get_ex root "cloud") [
      | none ↦ none
      | some cloud ↦ cloud_settings cloud settings
    ]
  ]

  -- A NULL path is no valid file.
  unfoldable pub parse_named : Option Bytes → Settings → Option Settings
  unfolding parse_config_file
  parse_named none settings = none
  parse_named (some config_path) settings = parse_config_file config_path settings

  -- The argument is what `g_option_context_parse` has left of the options, nothing where it fails.
  unfoldable pub settings_parse : Option Settings → Option Settings
  unfolding parse_named
  settings_parse none = none
  settings_parse (some settings) = parse_named settings.config_path settings
