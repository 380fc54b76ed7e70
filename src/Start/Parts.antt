-- ===== src/Start/Parts.antt =====
-- src/manager.c: the parts of the service, started in order and stopped in the opposite one.
use knot_service_source.Common.{
  ◌≡◌, ◌≢◌, ◌⊎◌, ℤ, pos, is_neg, is_zero, Bool, true, false, List, [], ◌∷◌, if◌then◌else◌, not,
  ◌&&◌, keep,
}

-- proto_start, node_start, msg_start, dbus_start and proxy_start, and their counterparts.
pub data Part : Type 0 where
  proto node msg dbus proxy : Part

-- What starts and stops a part; `destroy_sessions` is `session_destroy_all`.
pub record Parts : Type 1 where
  pub World : Type 0
  pub start : Part → World → ℤ × World
  pub stop : Part → World → World
  pub destroy_sessions : World → World

module _ (p : Parts) where
  -- The parts that run, the last one first.
  pub record Service : Type 0 where
    pub running : List Part
    pub world : p.World

  -- Whether a start that failed leaves something of its part: `proxy_start` makes its list of devices
  -- and its watch before it returns the result of `device_start`; the others clean up.
  abbrev pub left_behind : Part → Bool
  left_behind proxy = true
  left_behind part = false

  -- A part runs where its start has not failed, or where it leaves something.
  abbrev pub begin : Part → (ℤ → Bool) → Service → ℤ × Service
  begin part failed s =
      let (err, w) = p.start part s.world in
      (
        err,
        record {
          running = if failed err && not (left_behind part) then s.running else part ∷ s.running;
          world = w;
        },
      )

  abbrev pub same_part : Part → Part → Bool
  same_part proto proto = true
  same_part node node = true
  same_part msg msg = true
  same_part dbus dbus = true
  same_part proxy proxy = true
  same_part part other = false

  -- The parts that run once this one is stopped.
  abbrev pub without_part : Part → List Part → List Part
  without_part part running = keep (λ other. not (same_part part other)) running

  abbrev pub stop_last : Part → Service → Service
  stop_last part s = record { running = without_part part s.running; world = p.stop part s.world }

  unfoldable pub start_dbus : Service → ℤ × Service
  start_dbus s =
      let (err, s') = begin dbus (λ e. not (is_zero e)) s in
      if is_zero err
      then begin proxy is_neg s'
      else (err, stop_last proto (stop_last node (stop_last msg s')))

  unfoldable pub start_msg : Service → ℤ × Service
  unfolding start_dbus
  start_msg s =
      let (err, s') = begin msg is_neg s in
      let rest = start_dbus s' in
      if is_neg err then (err, stop_last proto (stop_last node s')) else rest

  unfoldable pub start_node : Service → ℤ × Service
  unfolding start_msg
  start_node s =
      let (err, s') = begin node is_neg s in
      let rest = start_msg s' in if is_neg err then (err, stop_last proto s') else rest

  unfoldable pub manager_start : Service → ℤ × Service
  unfolding start_node
  manager_start s =
      let (err, s') = begin proto is_neg s in
      let rest = start_node s' in if is_neg err then (err, s') else rest

  unfoldable pub manager_stop : Service → Service
  manager_stop s =
      let s1 = stop_last dbus (stop_last proxy s) in
      let s2 : Service = record s1 { world = p.destroy_sessions s1.world } in
      stop_last proto (stop_last node (stop_last msg s2))

  -- How a start ends: rolled back with an error, with all parts, or with an error and all parts.
  abbrev Ends : ℤ × Service → Type 0
  Ends (err, s) =
      ((err ≢ pos 0) × (s.running ≡ []))
      ⊎ ((is_neg err ≡ false) × (s.running ≡ proxy ∷ dbus ∷ msg ∷ node ∷ proto ∷ []))
      ⊎ ((is_neg err ≡ true) × (s.running ≡ proxy ∷ dbus ∷ msg ∷ node ∷ proto ∷ []))

  abbrev started_as : Part → Service → Service
  started_as part s = record { running = part ∷ s.running; world = (p.start part s.world).1 }
