-- ===== src/Msg/Configured.antt =====
-- src/msg.c: which configurations are accepted, which are sent to the node, and what a confirmation
-- changes.
use Prim.Native.Nat.{bit_and, bit_or}
use mathlib.Core.List.{append-nil, append_assoc}
use mathlib.Core.Option.{some-injective}
use knot_service_source.Common.{
  ℕ, ◌<◌, ◌≡◌, refl, ap, sym, ◌∙◌, ◌≢◌, ◌↔◌, ◌⊎◌, inl, inr, Bool, true, false, ◌||◌, ◌&&◌, not,
  none, some, List, [], ◌∷◌, ◌++◌, map, keep, find?, All, arith, ℤ, is_neg, is_zero, ◌==◌, bytes_eq,
  bytes_eq_self, bytes_eq→eq, Bool-cases, Option-cases, subst, ◌+◌,
}
use knot_service_source.Common.Int.{sub32, ◌<ℤ◌, FitsDiff}
use knot_service_source.Common.Queue.{Queue, entries, push_all}
use knot_service_source.Env.{Env}
use knot_service_source.Env.Messages.{Bytes, MsgConfig}
use knot_service_source.Msg.State.{Config}
use knot_service_source.Msg.Config.{
  known_flags, threshold_flags, queue_concat, queue_clone, bad_flags, bad_time, bad_limits,
  config_is_valid_list, config_is_valid, duplicate_msg_config, config_to_msg_config_list,
  config_cmp, exists_and_confirmed, get_changed_config, foreach_remove, confirm_first,
  trust_config_confirm,
}

module _ {A : Type 0} where
  push_all_lem : (xs ys : List A) → push_all (some xs) ys ≡ some (xs ++ ys)
  unfolding push_all
  push_all_lem xs [] = ap some (sym (append-nil xs))
  push_all_lem xs (y ∷ ys) = push_all_lem (xs ++ y ∷ []) ys ∙ ap some (append_assoc xs (y ∷ []) ys)

  -- `queue_concat` appends the entries of the second queue in their order, and does nothing to a NULL
  -- pointer.
  pub queue_concat-append :
      (queue others : Queue A)
      → queue_concat queue others
        ≡ elim queue [ none ↦ none | some xs ↦ some (xs ++ entries others) ]
  unfolding queue_concat
  queue_concat-append none others = refl
  queue_concat-append (some xs) none = ap some (sym (append-nil xs))
  queue_concat-append (some xs) (some ys) = push_all_lem xs ys

  -- `queue_clone` makes a queue of the same entries.
  pub queue_clone-id : (queue : Queue A) → queue_clone queue ≡ queue
  unfolding queue_clone
  queue_clone-id none = refl
  queue_clone-id (some xs) = queue_concat-append (some []) (some xs)

module _ (e : Env) where
  -- What a configuration has to satisfy, stated without C's arithmetic: it asks for nothing or
  -- for an event that there is, gives a period exactly if it asks for periodic events,
  -- and has its limits in order if it asks for a threshold.
  pub record ValidConfig (c : MsgConfig e.Val) : Type 0 where
    pub flags : (bit_or c.event_flags e.flag_none ≡ 0) ⊎ (bit_and c.event_flags (known_flags e) ≢ 0)
    pub period : (bit_and c.event_flags e.flag_time ≢ 0) ↔ (0 < c.time_sec)
    pub limits :
        bit_and c.event_flags (threshold_flags e) ≢ 0
        → (e.val_f_int c.lower_limit <ℤ e.val_f_int c.upper_limit)
          ⊎ ((e.val_f_int c.lower_limit ≡ e.val_f_int c.upper_limit)
              × (e.val_f_dec c.lower_limit <ℤ e.val_f_dec c.upper_limit))

  -- The differences of the limits are `int`s.
  abbrev pub FitsLimits : MsgConfig e.Val → Type 0
  FitsLimits c =
      FitsDiff (e.val_f_int c.upper_limit) (e.val_f_int c.lower_limit)
      × FitsDiff (e.val_f_dec c.upper_limit) (e.val_f_dec c.lower_limit)

  limits_iff :
      (hi lo hd ld : ℤ)
      → FitsDiff hi lo
      → FitsDiff hd ld
      → ((is_neg (sub32 hi lo)
            || (is_zero (sub32 hi lo) && (is_neg (sub32 hd ld) || is_zero (sub32 hd ld))))
          ≡ false)
        ↔ ((lo <ℤ hi) ⊎ ((lo ≡ hi) × (ld <ℤ hd)))
  unfolding sub32
  limits_iff hi lo hd ld f g = ground arith

  bad_flags_iff :
      (c : MsgConfig e.Val)
      → (bad_flags e c ≡ false)
        ↔ ((bit_or c.event_flags e.flag_none ≡ 0) ⊎ (bit_and c.event_flags (known_flags e) ≢ 0))
  unfolding bad_flags
  bad_flags_iff c = ground arith

  bad_time_iff :
      (c : MsgConfig e.Val)
      → (bad_time e c ≡ false) ↔ ((bit_and c.event_flags e.flag_time ≢ 0) ↔ (0 < c.time_sec))
  unfolding bad_time
  bad_time_iff c = elim (Bool-cases (bit_and c.event_flags e.flag_time == 0)) [
    | inl h ↦
        rw (h, bad_time)
          ((λ p. (λ q. absurd (ground arith), λ q. absurd (ground arith))), λ p. ground arith)
    | inr h ↦ rw (h, bad_time) ((λ p. (λ q. ground arith, λ q. ground arith)), λ p. ground arith)
  ]

  bad_limits_iff :
      (c : MsgConfig e.Val)
      → FitsLimits c
      → (bad_limits e c ≡ false) ↔ (
          bit_and c.event_flags (threshold_flags e) ≢ 0
          → (e.val_f_int c.lower_limit <ℤ e.val_f_int c.upper_limit)
            ⊎ ((e.val_f_int c.lower_limit ≡ e.val_f_int c.upper_limit)
                × (e.val_f_dec c.lower_limit <ℤ e.val_f_dec c.upper_limit)))
  unfolding bad_limits
  bad_limits_iff c f =
      let (there, back) =
        limits_iff (e.val_f_int c.upper_limit) (e.val_f_int c.lower_limit)
          (e.val_f_dec c.upper_limit) (e.val_f_dec c.lower_limit) f.0 f.1 in
      elim (Bool-cases (bit_and c.event_flags (threshold_flags e) == 0)) [
        | inl h ↦ rw (h, bad_limits) ((λ p q. absurd (ground arith)), λ p. refl)
        | inr h ↦ rw (h, bad_limits) ((λ p q. there p), λ p. back (p (ground arith)))
      ]

  valid_iff :
      (c : MsgConfig e.Val)
      → FitsLimits c
      → ((bad_flags e c ≡ false) × (bad_time e c ≡ false) × (bad_limits e c ≡ false))
        ↔ ValidConfig c
  valid_iff c f =
      let (a, a') = bad_flags_iff c in
      let (b, b') = bad_time_iff c in
      let (d, d') = bad_limits_iff c f in
      (
        (λ (p, q, r). record { flags = a p; period = b q; limits = d r }),
        λ v. (a' v.flags, b' v.period, d' v.limits),
      )

  step_iff :
      (c : Config e.Val) (rest : List (Config e.Val))
      → e.error_unknown ≢ e.success
      → (config_is_valid_list e (c ∷ rest) ≡ e.success) ↔ (
          ((bad_flags e c.kmcfg ≡ false)
            × (bad_time e c.kmcfg ≡ false)
            × (bad_limits e c.kmcfg ≡ false))
          × (config_is_valid_list e rest ≡ e.success))
  unfolding config_is_valid_list
  step_iff c rest h = ground arith

  -- `config_is_valid` answers success exactly where every configuration of the list satisfies the
  -- specification, where the differences of its limits do not overflow `int` and the two result codes
  -- are different.
  pub config_is_valid_iff :
      (list : Queue (Config e.Val))
      → e.error_unknown ≢ e.success
      → All (λ c. FitsLimits c.kmcfg) (entries list)
      → (config_is_valid e list ≡ e.success) ↔ All (λ c. ValidConfig c.kmcfg) (entries list)
  unfolding config_is_valid config_is_valid_list
  config_is_valid_iff list h f = go (entries list) f
    where
      go :
          (cs : List (Config e.Val))
          → All (λ c. FitsLimits c.kmcfg) cs
          → (config_is_valid_list e cs ≡ e.success) ↔ All (λ c. ValidConfig c.kmcfg) cs
      go [] f = ((λ _. tt), λ _. refl)
      go (c ∷ rest) (f, fs) =
          let (a, a') = step_iff c rest h in
          let (b, b') = valid_iff c.kmcfg f in
          let (d, d') = go rest fs in ((λ p. (b (a p).0, d (a p).1)), λ (v, vs). a' (b' v, d' vs))

  to_list_entries :
      (q : Queue (Config e.Val))
      → entries (config_to_msg_config_list e q)
        ≡ map (λ c. duplicate_msg_config e c.kmcfg) (entries q)
  unfolding config_to_msg_config_list
  to_list_entries none = refl
  to_list_entries (some []) = refl
  to_list_entries (some (c ∷ cs)) = refl

  changed_entries :
      (current received : Queue (Config e.Val))
      → entries (get_changed_config e current received)
        ≡ map
            (λ c. duplicate_msg_config e c.kmcfg)
            (keep (λ c. not (exists_and_confirmed e c current)) (entries received))
  unfolding get_changed_config
  changed_entries current received = rw (queue_clone-id received) (
      to_list_entries (foreach_remove e (λ c. exists_and_confirmed e c current) received)
      ∙ ap (map (λ c. duplicate_msg_config e c.kmcfg)) (removed received))
    where
      removed :
          (q : Queue (Config e.Val))
          → entries (foreach_remove e (λ c. exists_and_confirmed e c current) q)
            ≡ keep (λ c. not (exists_and_confirmed e c current)) (entries q)
      removed none = refl
      removed (some xs) = refl

  -- `First hash cs c`: of the configurations, `c` is the first one with this text.
  pub data First (hash : Bytes) : List (Config e.Val) → Config e.Val → Type 0 where
    here : {c : Config e.Val} {cs : List (Config e.Val)} → c.hash ≡ hash → First hash (c ∷ cs) c
    there :
        {c d : Config e.Val} {cs : List (Config e.Val)}
        → c.hash ≢ hash
        → First hash cs d
        → First hash (c ∷ cs) d

  -- The message for the node, field by field.
  abbrev pub message_of : MsgConfig e.Val → MsgConfig e.Val
  message_of c = record {
    hdr = record { kind = e.set_config; payload_len = e.sensor_id_size + e.config_values_size };
    sensor_id = c.sensor_id;
    event_flags = c.event_flags;
    time_sec = c.time_sec;
    lower_limit = c.lower_limit;
    upper_limit = c.upper_limit;
  }

  -- `Changed current received messages`: a configuration received gives no message where the first one
  -- with its text among the current ones is confirmed, and one where there is none or it is not.
  pub data Changed (current : List (Config e.Val))
      : List (Config e.Val) → List (MsgConfig e.Val) → Type 0 where
    all_seen : Changed current [] []
    not_sent :
        {c d : Config e.Val} {rest : List (Config e.Val)} {messages : List (MsgConfig e.Val)}
        → First c.hash current d
        → d.confirmed ≡ true
        → Changed current rest messages
        → Changed current (c ∷ rest) messages
    sent :
        {c : Config e.Val} {rest : List (Config e.Val)} {messages : List (MsgConfig e.Val)}
        → ((d : Config e.Val) → First c.hash current d → d.confirmed ≡ false)
        → Changed current rest messages
        → Changed current (c ∷ rest) (message_of c.kmcfg ∷ messages)

  same_hash : (c d : Config e.Val) → c.hash ≡ d.hash → config_cmp e c d ≡ true
  unfolding config_cmp
  same_hash c d p = rw (p) (bytes_eq_self d.hash)

  find-First :
      (c d : Config e.Val) (cs : List (Config e.Val))
      → find? (λ x. config_cmp e x c) cs ≡ some d
      → First c.hash cs d
  unfolding config_cmp
  find-First c d [] h = absurd (cc)
  find-First c d (x ∷ xs) h = elim (Bool-cases (config_cmp e x c)) [
    | inl p ↦
        subst (First c.hash (x ∷ xs)) (some-injective x d (rw p at h))
          (here (bytes_eq→eq x.hash c.hash p))
    | inr p ↦
        there (λ q. absurd (ground (arith, same_hash x c q, p))) (find-First c d xs (rw p at h))
  ]

  First-find :
      (c d : Config e.Val) (cs : List (Config e.Val))
      → First c.hash cs d
      → find? (λ x. config_cmp e x c) cs ≡ some d
  unfolding config_cmp
  First-find r _ _ (here {c} {cs} p) = rw (same_hash c r p) refl
  First-find r _ _ (there {c} {d} {cs} p rest) = elim (Bool-cases (config_cmp e c r)) [
    | inl q ↦ absurd (p (bytes_eq→eq c.hash r.hash q))
    | inr q ↦ rw (q) (First-find r d cs rest)
  ]

  exists_true :
      (c : Config e.Val) (current : Queue (Config e.Val))
      → exists_and_confirmed e c current ≡ true
      → (d : Config e.Val) × First c.hash (entries current) d × (d.confirmed ≡ true)
  unfolding exists_and_confirmed
  exists_true c current h = elim (Option-cases (find? (λ x. config_cmp e x c) (entries current))) [
    | inl p ↦ absurd (ground (arith, rw (p, exists_and_confirmed) at h))
    | inr (d, p) ↦ (d, find-First c d (entries current) p, rw (p, exists_and_confirmed) at h)
  ]

  exists_false :
      (c : Config e.Val) (current : Queue (Config e.Val))
      → exists_and_confirmed e c current ≡ false
      → (d : Config e.Val) → First c.hash (entries current) d
      → d.confirmed ≡ false
  unfolding exists_and_confirmed
  exists_false c current h d f = rw (First-find c d (entries current) f, exists_and_confirmed) at h

  changed_lem :
      (current : Queue (Config e.Val)) (received : List (Config e.Val))
      → Changed (entries current) received (
          map
            (λ c. duplicate_msg_config e c.kmcfg)
            (keep (λ c. not (exists_and_confirmed e c current)) received))
  unfolding duplicate_msg_config
  changed_lem current [] = all_seen
  changed_lem current (c ∷ rest) = elim (Bool-cases (exists_and_confirmed e c current)) [
    | inl p ↦
        let (d, first, marked) = exists_true c current p in
        rw (p) (not_sent first marked (changed_lem current rest))
    | inr p ↦ rw (p) (sent (exists_false c current p) (changed_lem current rest))
  ]

  -- `get_changed_config` gives, for the configurations received and in their order, a message for the
  -- node that takes over the sensor, the event flags, the period and the limits under the header of
  -- KNOT_MSG_SET_CONFIG, but none for a configuration where the first current one with the same text is
  -- confirmed.
  pub get_changed_config-Changed :
      (current received : Queue (Config e.Val))
      → Changed
          (entries current)
          (entries received)
          (entries (get_changed_config e current received))
  get_changed_config-Changed current received =
      subst (Changed (entries current) (entries received)) (sym (changed_entries current received))
        (changed_lem current (entries received))

  find_true :
      {A : Type 0} (test : A → Bool) (xs : List A) (x : A) → find? test xs ≡ some x → test x ≡ true
  find_true test [] x h = absurd (cc)
  find_true test (y ∷ ys) x h = elim (Bool-cases (test y)) [
    | inl p ↦ cc
    | inr p ↦ find_true test ys x (rw p at h)
  ]

  clash :
      {A : Type 0} (test : A → Bool) (x y : A) (ys : List A)
      → test x ≡ false
      → some x ≡ some y
      → find? test ys ≡ some y
      → ⊥
  clash test x y ys p h k = absurd (ground (arith, find_true test ys y k))

  confirmed_exists :
      (sensor_id : ℕ) (cs : List (Config e.Val)) (cfg received : Config e.Val)
      → find? (λ c. c.kmcfg.sensor_id == sensor_id) cs ≡ some cfg
      → find? (λ c. config_cmp e c received) cs ≡ some cfg
      → exists_and_confirmed e received (some (confirm_first e sensor_id cs)) ≡ true
  unfolding exists_and_confirmed config_cmp confirm_first
  confirmed_exists sensor_id [] cfg received h k = absurd (cc)
  confirmed_exists sensor_id (c ∷ cs) cfg received h k =
      elim (Bool-cases (c.kmcfg.sensor_id == sensor_id)) [
        | inl p ↦ elim (Bool-cases (bytes_eq c.hash received.hash)) [
          | inl q ↦ rw (p, confirm_first, q, exists_and_confirmed, config_cmp) refl
          | inr q ↦ absurd (
              clash (λ c'. config_cmp e c' received) c cfg cs q (rw p at h)
                (rw (q, config_cmp) at k))
        ]
        | inr p ↦ elim (Bool-cases (bytes_eq c.hash received.hash)) [
          | inl q ↦ absurd (
              clash (λ c'. c'.kmcfg.sensor_id == sensor_id) c cfg cs p (rw (q, config_cmp) at k)
                (rw p at h))
          | inr q ↦
              rw (p, confirm_first, exists_and_confirmed, config_cmp)
                (rw q (
                  confirmed_exists sensor_id cs cfg received (rw p at h) (rw (q, config_cmp) at k)))
        ]
      ]

  -- Once the node has confirmed a sensor, a configuration with the same text as the one that was
  -- confirmed is not sent to the node again, if that one is also the first with its text.
  confirmed_not_sent :
      (sensor_id : ℕ) (cs : List (Config e.Val)) (cfg received : Config e.Val)
      → find? (λ c. c.kmcfg.sensor_id == sensor_id) cs ≡ some cfg
      → find? (λ c. config_cmp e c received) cs ≡ some cfg
      → entries
          (get_changed_config e (trust_config_confirm e sensor_id (some cs)) (some (received ∷ [])))
        ≡ []
  unfolding trust_config_confirm
  confirmed_not_sent sensor_id cs cfg received h k =
      changed_entries (some (confirm_first e sensor_id cs)) (some (received ∷ []))
      ∙ rw (confirmed_exists sensor_id cs cfg received h k) refl
