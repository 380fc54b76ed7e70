-- ===== src/Msg/Examples/Reports.antt =====
-- The theorems on configurations, schemas and data at concrete inputs of the small service.
use knot_service_source.Common.{
  ◌≡◌, ◌↔◌, refl, All, arith, true, false, none, some, [], ◌∷◌, ◌++◌, map, ℤ, pos,
}
use knot_service_source.Common.Queue.{Queue, entries}
use knot_service_source.Env.Messages.{no_header, data_msg, item_msg}
use knot_service_source.Common.Monad.{ok}
use knot_service_source.Msg.State.{Config, write_at}
use knot_service_source.Msg.Parse.{
  parse_device_config, parse_device_setdata, parse_device_getdata, member_array, items,
  config_entry, items_from, all_entries, parse_json_value_types,
}
use knot_service_source.Msg.Config.{
  config_is_valid, config_is_valid_list, bad_flags, bad_time, bad_limits, truthy,
  get_changed_config,
}
use knot_service_source.Msg.Data.{msg_data}
use knot_service_source.Msg.Changed.{
  forward, send_all, update_msg_data_header, update_msg_item_header,
}
use knot_service_source.Msg.Configured.{
  ValidConfig, config_is_valid_iff, Changed, get_changed_config-Changed,
}
use knot_service_source.Msg.SchemaLost.{data_after_schema}
use knot_service_source.Msg.Parsed.{Pairwise, parse_device_config-Pairwise}
use knot_service_source.Msg.Forwarded.{forward_lem, forward_invalid, expected}
use knot_service_source.Msg.Examples.Service.{service}
use knot_service_source.Msg.Examples.Checks.{
  registered, registered_lem, light, reading, created, begun, finished, finished_lem, beginning,
  beginning-Reachable,
}

-- A configuration that asks for changes of sensor 3, and one that asks for periodic events as well.
abbrev on_change : Config ℤ
on_change = record {
  kmcfg = record {
    hdr = no_header;
    sensor_id = 3;
    event_flags = 8;
    time_sec = 0;
    lower_limit = pos 0;
    upper_limit = pos 0;
  };
  hash = 5 ∷ [];
  confirmed = false;
}

abbrev periodic : Config ℤ
periodic = record {
  kmcfg = record {
    hdr = no_header;
    sensor_id = 4;
    event_flags = 9;
    time_sec = 30;
    lower_limit = pos 0;
    upper_limit = pos 0;
  };
  hash = 6 ∷ [];
  confirmed = false;
}

abbrev both : Queue (Config ℤ)
both = some (on_change ∷ periodic ∷ [])

config_is_valid_iff_example :
    (config_is_valid service both ≡ 0)
    ↔ All (λ c. ValidConfig service c.kmcfg) (on_change ∷ periodic ∷ [])
config_is_valid_iff_example =
    config_is_valid_iff service both (λ p. absurd (omega arith))
      (
        ((omega arith, omega arith), (omega arith, omega arith)),
        (((omega arith, omega arith), (omega arith, omega arith)), tt),
      )

get_changed_config-Changed_example :
    Changed service
      (on_change ∷ periodic ∷ [])
      (on_change ∷ periodic ∷ [])
      (entries (get_changed_config service both both))
get_changed_config-Changed_example = get_changed_config-Changed service both both

configs_read : parse_device_config service (some (2 ∷ [])) ≡ some (on_change ∷ [])
unfolding parse_device_config config_entry all_entries items_from parse_json_value_types
configs_read = refl

parse_device_config_example :
    (array : service.Json) × (member_array service (some (2 ∷ [])) "config" ≡ some array)
    × Pairwise service (config_entry service) (items service array) (on_change ∷ [])
parse_device_config_example =
    parse_device_config-Pairwise service (some (2 ∷ [])) (on_change ∷ []) configs_read

data_after_schema_example : msg_data service 5 1 reading finished ≡ ok (2, finished)
data_after_schema_example =
    data_after_schema service 5 1 9 42 (7 ∷ 7 ∷ []) (8 ∷ 8 ∷ []) false none none (light ∷ [])
      (record light { sensor_id = 4 }) reading tt tt beginning created begun finished
      beginning-Reachable finished_lem.0 finished_lem.1 finished_lem.2

accepted : truthy (config_is_valid service (parse_device_config service (some (2 ∷ [])))) ≡ false
unfolding config_is_valid config_is_valid_list bad_flags bad_time bad_limits
accepted = rw configs_read refl

forward_example :
    forward service 5 (some (2 ∷ [])) registered
    ≡ send_all service 5 (expected service registered_lem.2.1.config (some (2 ∷ []))) (
        write_at service registered_lem.2.0
          (some
            (record registered_lem.2.1 { config = parse_device_config service (some (2 ∷ [])) }))
          registered)
forward_example =
    forward_lem service 5 registered_lem.2.0 (some (2 ∷ [])) registered_lem.2.1 registered
      registered_lem.2.2 registered_lem.2.3 accepted

rejected : truthy (config_is_valid service (parse_device_config service (some (4 ∷ [])))) ≡ true
unfolding config_is_valid config_is_valid_list bad_flags bad_time bad_limits parse_device_config
    config_entry all_entries items_from parse_json_value_types
rejected = refl

forward_invalid_example :
    forward service 5 (some (4 ∷ [])) registered
    ≡ send_all service 5
        (map data_msg (
            map
              (update_msg_data_header service)
              (entries (parse_device_setdata service (some (4 ∷ [])))))
          ++ map item_msg (
              map
                (update_msg_item_header service)
                (entries (parse_device_getdata service (some (4 ∷ []))))))
        registered
forward_invalid_example =
    forward_invalid service 5 registered_lem.2.0 (some (4 ∷ [])) registered registered_lem.2.2
      rejected
