-- ===== src/Msg/Config.antt =====
-- src/msg.c: sensor configurations. Which ones are valid, which ones changed, and what is sent.
use Prim.Native.Nat.{bit_and, bit_or}
use knot_service_source.Common.{
  ℕ, ◌+◌, Bool, true, false, ◌&&◌, ◌||◌, not, none, some, List, [], ◌∷◌, map, keep, find?,
  if◌then◌else◌, ◌==◌, ltb, bytes_eq, is_neg, is_zero,
}
use knot_service_source.Common.Int.{sub32}
use knot_service_source.Common.Queue.{Queue, entries, push_all, is_empty}
use knot_service_source.Env.{Env}
use knot_service_source.Env.Messages.{MsgConfig}
use knot_service_source.Msg.State.{Config}

-- A number that C reads as a condition.
abbrev pub truthy : ℕ → Bool
truthy n = not (n == 0)

module _ {A : Type 0} where
  unfoldable pub queue_concat : Queue A → Queue A → Queue A
  unfolding push_all
  queue_concat none others = none
  queue_concat (some xs) none = some xs
  queue_concat (some xs) (some ys) = push_all (some xs) ys

  unfoldable pub queue_clone : Queue A → Queue A
  unfolding queue_concat
  queue_clone none = none
  queue_clone (some xs) = queue_concat (some []) (some xs)

module _ (e : Env) where
  -- The four groups of events that a configuration may ask for, or the notice of unregistration.
  abbrev pub known_flags : ℕ
  known_flags =
      bit_or (bit_or (bit_or (bit_or e.flag_time e.flag_lower) e.flag_upper) e.flag_change)
        e.flag_unregistered

  abbrev pub threshold_flags : ℕ
  threshold_flags = bit_or e.flag_lower e.flag_upper

  -- "Check if event_flags are valid"
  unfoldable pub bad_flags : MsgConfig e.Val → Bool
  bad_flags config =
      truthy (bit_or config.event_flags e.flag_none)
      && not (truthy (bit_and config.event_flags known_flags))

  -- "Check consistency of time_sec"
  unfoldable pub bad_time : MsgConfig e.Val → Bool
  bad_time config =
      if truthy (bit_and config.event_flags e.flag_time)
      then config.time_sec == 0
      else ltb 0 config.time_sec

  -- "Check consistency of limits"
  unfoldable pub bad_limits : MsgConfig e.Val → Bool
  bad_limits config =
      let diff_int = sub32 (e.val_f_int config.upper_limit) (e.val_f_int config.lower_limit) in
      let diff_dec = sub32 (e.val_f_dec config.upper_limit) (e.val_f_dec config.lower_limit) in
      if truthy (bit_and config.event_flags threshold_flags)
      then is_neg diff_int || (is_zero diff_int && (is_neg diff_dec || is_zero diff_dec))
      else false

  unfoldable pub config_is_valid_list : List (Config e.Val) → ℕ
  unfolding bad_flags bad_time bad_limits
  config_is_valid_list [] = e.success
  config_is_valid_list (cfg ∷ rest) =
      if bad_flags cfg.kmcfg
      then e.error_unknown
      else if bad_time cfg.kmcfg
      then e.error_unknown
      else if bad_limits cfg.kmcfg
      then e.error_unknown
      else config_is_valid_list rest

  unfoldable pub config_is_valid : Queue (Config e.Val) → ℕ
  unfolding config_is_valid_list
  config_is_valid config_list = config_is_valid_list (entries config_list)

  unfoldable pub duplicate_msg_config : MsgConfig e.Val → MsgConfig e.Val
  duplicate_msg_config config = record config {
    hdr = record { kind = e.set_config; payload_len = e.sensor_id_size + e.config_values_size };
  }

  unfoldable pub config_to_msg_config_list : Queue (Config e.Val) → Queue (MsgConfig e.Val)
  unfolding duplicate_msg_config
  config_to_msg_config_list config_list =
      if is_empty config_list
      then none
      else some (map (λ config. duplicate_msg_config config.kmcfg) (entries config_list))

  unfoldable pub config_cmp : Config e.Val → Config e.Val → Bool
  config_cmp config1 config2 = bytes_eq config1.hash config2.hash

  unfoldable pub exists_and_confirmed : Config e.Val → Queue (Config e.Val) → Bool
  unfolding config_cmp
  exists_and_confirmed received current_list =
      elim (find? (λ current. config_cmp current received) (entries current_list)) [
        | none ↦ false
        | some current ↦ current.confirmed
      ]

  -- `l_queue_foreach_remove`: drops the entries that the callback accepts.
  abbrev pub foreach_remove : (Config e.Val → Bool) → Queue (Config e.Val) → Queue (Config e.Val)
  foreach_remove test none = none
  foreach_remove test (some xs) = some (keep (λ x. not (test x)) xs)

  unfoldable pub get_changed_config :
      Queue (Config e.Val) → Queue (Config e.Val) → Queue (MsgConfig e.Val)
  unfolding exists_and_confirmed config_to_msg_config_list queue_clone
  get_changed_config current received =
      config_to_msg_config_list
        (foreach_remove (λ config. exists_and_confirmed config current) (queue_clone received))

  -- The loop of `l_queue_find` in `trust_config_confirm`: the first entry of the sensor is marked.
  unfoldable pub confirm_first : ℕ → List (Config e.Val) → List (Config e.Val)
  confirm_first sensor_id [] = []
  confirm_first sensor_id (cfg ∷ rest) =
      if cfg.kmcfg.sensor_id == sensor_id
      then record cfg { confirmed = true } ∷ rest
      else cfg ∷ confirm_first sensor_id rest

  -- The new member `config` of the trust: marks the first entry of the sensor.
  unfoldable pub trust_config_confirm : ℕ → Queue (Config e.Val) → Queue (Config e.Val)
  unfolding confirm_first
  trust_config_confirm sensor_id none = none
  trust_config_confirm sensor_id (some configs) = some (confirm_first sensor_id configs)
