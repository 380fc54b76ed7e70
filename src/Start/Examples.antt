-- ===== src/Start/Examples.antt =====
-- The theorems on the start of the service at concrete inputs.
use knot_service_source.Common.{
  ℕ, ◌+◌, ◌≡◌, ◌↔◌, refl, pos, negsuc, true, false, none, some, [], ◌∷◌, if◌then◌else◌, ◌==◌,
  occurs,
}
use knot_service_source.Msg.Examples.Service.{service, text, number, object, stop, member}
use knot_service_source.Start.Settings.{Settings, Files, settings_parse}
use knot_service_source.Start.Loaded.{Loaded, settings_parse-Loaded}
use knot_service_source.Start.Servers.{Radio, State, node_start, node_stop}
use knot_service_source.Start.Removed.{channels_of, unloaded_removed}
use knot_service_source.Start.Parts.{proto, proxy, Parts, Service}

abbrev files : Files
files = record {
  json = service.json;
  object_from_file = λ path. some (
      object (
        member "cloud"
          (object (
            member "uuid" (text (7 ∷ []))
              (member "serverName" (text (8 ∷ [])) (member "port" (number (pos 3000)) stop))))
          stop));
}

-- A command line with a host, without a port.
abbrev given : Settings
given = record {
  use_ell = false;
  config_path = some (1 ∷ []);
  host = some (9 ∷ []);
  port = 0;
  proto = none;
  uuid = none;
  tty = none;
  detach = true;
  run_as_nobody = true;
}

settings_parse-Loaded_example :
    (settings_parse files (some given)
      ≡ some (record given { uuid = some (7 ∷ []); host = some (9 ∷ []); port = 3000 }))
    ↔ Loaded files given (record given { uuid = some (7 ∷ []); host = some (9 ∷ []); port = 3000 })
settings_parse-Loaded_example =
    settings_parse-Loaded files given
      (record given { uuid = some (7 ∷ []); host = some (9 ∷ []); port = 3000 })

-- Driver 2 cannot be probed, driver 3 does not listen.
abbrev radio : Radio
radio = record {
  World = ℕ;
  is_serial = λ ops. false;
  load_config = λ tty w. w;
  probe = λ ops w. (if ops == 2 then negsuc 4 else pos 0, w + 1);
  listen = λ ops w. (if ops == 3 then negsuc 4 else pos 7, w + 1);
  remove = λ ops w. w;
}

abbrev unstarted : State radio
unstarted = record { accept_channel_list = []; removed = []; world = 0 }

unloaded_removed_example :
    (channels_of 2 (node_start radio none (1 ∷ 2 ∷ 3 ∷ []) unstarted).1.accept_channel_list ≡ 0)
    × (occurs 2 (node_start radio none (1 ∷ 2 ∷ 3 ∷ []) unstarted).1.removed ≡ 0)
    × (occurs 2
          (node_stop radio
            (1 ∷ 2 ∷ 3 ∷ [])
            (node_start radio none (1 ∷ 2 ∷ 3 ∷ []) unstarted).1).removed
        ≡ 1)
unloaded_removed_example = unloaded_removed radio none 2 (1 ∷ 2 ∷ 3 ∷ []) unstarted (λ w. refl)

-- Only the last part fails.
abbrev parts : Parts
parts = record {
  World = ℕ;
  start = λ part w. elim part [ proxy ↦ (negsuc 4, w + 1) | _ ↦ (pos 0, w + 1) ];
  stop = λ part w. w;
  destroy_sessions = λ w. w;
}

abbrev stopped : Service parts
stopped = record { running = []; world = 0 }
