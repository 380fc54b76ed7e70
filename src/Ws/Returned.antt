-- ===== src/Ws/Returned.antt =====
-- src/proto-ws.c: when `ws_device` returns, by what `lws_service` delivers.
use knot_service_source.Common.{
  ℕ, zero, suc, ◌≤◌, ◌≡◌, ◌≢◌, refl, sym, subst, Bool, true, false, none, some, List, [], ◌∷◌, ◌++◌,
  All, lookup, is_some, bytes_eq, arith, ==_self, ◌==◌, if◌then◌else◌, Bool-cases, inl, inr,
}
use knot_service_source.Common.Monad.{pure, ◌>>=◌}
use knot_service_source.Common.Hoare.{ok->>=, Returns, Returns->>=, Returns-ok}
use knot_service_source.Env.Messages.{Bytes}
use knot_service_source.Env.Raw.{JsonRaw}
use knot_service_source.Ws.Service.{
  Service, Callback, receive, writeable, client_connection_failed, closed, digit,
}
use knot_service_source.Ws.Receive.{
  Psd, State, identify_request, ready_response, not_ready_response, config_msg, starts_with,
  from_bracket, reply_received, message_received, packet_received, handle_cloud_response,
  client_writeable, callback_lws_http, run_callbacks, lws_service,
}
use knot_service_source.Ws.Request.{
  operation_prefix, answered, wait, request_text, uuid_object, print_message, reply_or_refused,
  reset_response, ws_device,
}
use knot_service_source.Ws.Waited.{Until, now, later, sent, request-sent}
use knot_service_source.Ws.Answers.{
  device_name, Connected, asked_device, ws_device-waits, Over, reply_or_refused-Over,
}

module _ (l : Service) (sock : ℕ) where
  -- A callback that leaves the flags of a request alone: a packet that is no message, a write that
  -- succeeds on the socket, a failed connection attempt, or the end of a connection.
  abbrev pub Harmless : Callback → Type 0
  Harmless (receive wsi text) = (n : ℕ) × (l.scan_digit text ≡ digit n) × (n ≢ 4)
  Harmless (writeable wsi failed) = (failed ≡ false) × (l.socket_fd wsi ≡ sock)
  Harmless client_connection_failed = Unit
  Harmless (closed wsi) = Unit

  -- A callback that ends the wait: a message that is neither the request to identify nor the cloud's
  -- acceptance nor a device's update, or a write that fails on the socket.
  abbrev pub Decisive : Callback → Type 0
  Decisive (receive wsi text) =
      (l.scan_digit text ≡ digit 4)
      × (bytes_eq (from_bracket text) identify_request ≡ false)
      × (starts_with (from_bracket text) ready_response ≡ false)
      × (starts_with (from_bracket text) config_msg ≡ false)
  Decisive (writeable wsi failed) = (failed ≡ true) × (l.socket_fd wsi ≡ sock)
  Decisive client_connection_failed = ⊥
  Decisive (closed wsi) = ⊥

  -- `Comes k w`: from the world `w` on, the `k`-th call of `lws_service` is the first one that delivers
  -- something decisive, among harmless callbacks.
  pub data Comes : ℕ → l.World → Type 0 where
    comes :
        {w : l.World} (before : List Callback) (callback : Callback) (after : List Callback)
        → (l.service w).0 ≡ before ++ callback ∷ after
        → All Harmless before
        → Decisive callback
        → All Harmless after
        → Comes 1 w
    waits :
        {k : ℕ} {w : l.World}
        → All Harmless (l.service w).0
        → Comes k (l.service w).1
        → Comes (suc k) w

  -- The session of the request is the current one, and it is allocated; `b` tells whether a flag is set.
  record Waiting (psd : ℕ) (w : l.World) (b : Bool) (s : State l) : Type 0 where
    current : s.psd ≡ some psd
    cell : (u : Psd) × (s.heap psd ≡ some u)
    mapped : lookup sock s.wstable ≡ some psd
    flags : answered l s ≡ b
    same_world : s.world ≡ w

  -- The state before the callbacks of a call of `lws_service`.
  abbrev served : State l → l.World → State l
  served s w = record s { world = (l.service w).1 }

  served-Waiting :
      (psd : ℕ) (w : l.World) (s : State l)
      → Waiting psd w false s
      → Waiting psd (l.service w).1 false (served s w)
  served-Waiting psd w s h = record {
    current = h.current;
    cell = h.cell;
    mapped = h.mapped;
    flags = h.flags;
    same_world = refl;
  }

  module _ (psd : ℕ) (w : l.World) where
    write-Waiting :
        (wsi : ℕ) (failed b : Bool) (s : State l) (u : Psd)
        → s.psd ≡ some psd
        → s.heap psd ≡ some u
        → lookup (l.socket_fd wsi) s.wstable ≡ some psd
        → lookup sock s.wstable ≡ some psd
        → answered l s ≡ b
        → s.world ≡ w
        → Returns
            (λ _ s'. Waiting psd w (if failed then true else b) s')
            (client_writeable l wsi failed s)
    unfolding Returns client_writeable
    write-Waiting wsi true b s u current cell here mapped flags same_world =
        rw (client_writeable, ◌>>=◌, current, cell, here, ==_self psd, Returns)
          (record {
            current = refl;
            cell = (record u { interval = l.seconds s.world }, rw (==_self psd) refl);
            mapped = mapped;
            flags = ground (arith);
            same_world = same_world;
          })
    write-Waiting wsi false b s u current cell here mapped flags same_world =
        rw (client_writeable, ◌>>=◌, current, cell, here, ==_self psd, Returns)
          (record {
            current = refl;
            cell = (record u { interval = l.seconds s.world }, rw (==_self psd) refl);
            mapped = mapped;
            flags = flags;
            same_world = same_world;
          })

    written-Waiting :
        (wsi : ℕ) (failed b : Bool) (s : State l)
        → l.socket_fd wsi ≡ sock
        → Waiting psd w b s
        → Returns
            (λ _ s'. Waiting psd w (if failed then true else b) s')
            (client_writeable l wsi failed s)
    written-Waiting wsi failed b s q h =
        write-Waiting wsi failed b s h.cell.0 h.current h.cell.1 (rw (q) h.mapped) h.mapped h.flags
          h.same_world

    Harmless-Waiting :
        (callback : Callback) (b : Bool) (s : State l)
        → Harmless callback
        → Waiting psd w b s
        → Returns (λ _ s'. Waiting psd w b s') (callback_lws_http l callback s)
    unfolding Returns callback_lws_http handle_cloud_response packet_received
    Harmless-Waiting (receive wsi text) b s (n, p, q) h = elim (Bool-cases (n == 4)) [
      | inl e ↦ absurd (q (ground arith))
      | inr e ↦ rw (callback_lws_http, handle_cloud_response, p, packet_received, e, Returns) h
    ]
    Harmless-Waiting (writeable wsi true) b s (p, q) h = absurd (cc)
    Harmless-Waiting (writeable wsi false) b s (p, q) h = written-Waiting wsi false b s q h
    Harmless-Waiting client_connection_failed b s _ h = record {
      current = h.current;
      cell = h.cell;
      mapped = h.mapped;
      flags = h.flags;
      same_world = h.same_world;
    }
    Harmless-Waiting (closed wsi) b s _ h = h

    Decisive-Waiting :
        (callback : Callback) (b : Bool) (s : State l)
        → Decisive callback
        → Waiting psd w b s
        → Returns (λ _ s'. Waiting psd w true s') (callback_lws_http l callback s)
    unfolding Returns callback_lws_http handle_cloud_response packet_received message_received
        reply_received
    Decisive-Waiting (receive wsi text) b s (p, x, y, z) h =
        elim (Bool-cases (starts_with (from_bracket text) not_ready_response)) [
          | inl e ↦
              rw
                (
                  callback_lws_http, handle_cloud_response, p, packet_received, message_received, x,
                  y, e, Returns,
                )
                (record {
                  current = h.current;
                  cell = h.cell;
                  mapped = h.mapped;
                  flags = ground (arith);
                  same_world = h.same_world;
                })
          | inr e ↦
              rw
                (
                  callback_lws_http, handle_cloud_response, p, packet_received, message_received, x,
                  y, e, z, reply_received, ◌>>=◌, h.current, h.cell.1, Returns,
                )
                (record {
                  current = refl;
                  cell =
                      (record h.cell.0 { json = some (from_bracket text) }, rw (==_self psd) refl);
                  mapped = h.mapped;
                  flags = refl;
                  same_world = h.same_world;
                })
        ]
    Decisive-Waiting (writeable wsi true) b s (p, q) h = written-Waiting wsi true b s q h
    Decisive-Waiting (writeable wsi false) b s (p, q) h = absurd (cc)
    Decisive-Waiting client_connection_failed b s d h = absurd d
    Decisive-Waiting (closed wsi) b s d h = absurd d

    run-Harmless :
        (callbacks : List Callback) (b : Bool) (s : State l)
        → All Harmless callbacks
        → Waiting psd w b s
        → Returns (λ _ s'. Waiting psd w b s') (run_callbacks l callbacks s)
    unfolding Returns run_callbacks
    run-Harmless [] b s all h = h
    run-Harmless (callback ∷ rest) b s (a, all) h =
        Returns->>= (λ _ s'. Waiting psd w b s') (λ _ s'. Waiting psd w b s')
          (callback_lws_http l callback) (λ _. run_callbacks l rest) s
          (Harmless-Waiting callback b s a h) λ _ s' h'. run-Harmless rest b s' all h'

    run-Decisive :
        (before : List Callback) (callback : Callback) (after : List Callback) (s : State l)
        → All Harmless before
        → Decisive callback
        → All Harmless after
        → Waiting psd w false s
        → Returns (λ _ s'. Waiting psd w true s') (run_callbacks l (before ++ callback ∷ after) s)
    unfolding Returns run_callbacks
    run-Decisive [] callback after s all d all' h =
        Returns->>= (λ _ s'. Waiting psd w true s') (λ _ s'. Waiting psd w true s')
          (callback_lws_http l callback) (λ _. run_callbacks l after) s
          (Decisive-Waiting callback false s d h) λ _ s' h'. run-Harmless after true s' all' h'
    run-Decisive (first ∷ before) callback after s (a, all) d all' h =
        Returns->>= (λ _ s'. Waiting psd w false s') (λ _ s'. Waiting psd w true s')
          (callback_lws_http l first) (λ _. run_callbacks l (before ++ callback ∷ after)) s
          (Harmless-Waiting first false s a h)
          λ _ s' h'. run-Decisive before callback after s' all d all' h'

  -- Where the fuel is enough, the wait ends, with a flag set.
  Comes-Until :
      (psd k : ℕ) (w : l.World) (s : State l)
      → Comes k w
      → Waiting psd w false s
      → (s' : State l) × (w' : l.World) × Until l (answered l) k s s' × Waiting psd w' true s'
  unfolding lws_service
  Comes-Until psd _ w s (comes before callback after e all d all') h =
      let (u, s', p, h') =
        Returns-ok (λ _ s'. Waiting psd (l.service w).1 true s')
          (run_callbacks l (before ++ callback ∷ after) (served s w))
          (run-Decisive psd (l.service w).1 before callback after (served s w) all d all'
            (served-Waiting psd w s h)) in
      (
        s',
        (l.service w).1,
        later h.flags (rw (lws_service, ◌>>=◌, h.same_world, e) p) (now h'.flags),
        h',
      )
  Comes-Until psd _ w s (waits {k} all rest) h =
      let (u, s1, p, h1) =
        Returns-ok (λ _ s'. Waiting psd (l.service w).1 false s')
          (run_callbacks l (l.service w).0 (served s w))
          (run-Harmless psd (l.service w).1 (l.service w).0 false (served s w) all
            (served-Waiting psd w s h)) in
      let (s', w', until, h') = Comes-Until psd k (l.service w).1 s1 rest h1 in
      (s', w', later h.flags (rw (lws_service, ◌>>=◌, h.same_world) p) until, h')

  -- The state in which the wait of `ws_device` begins.
  asked-Waiting :
      (psd : ℕ) (t : Psd) (ws : ℕ) (uuid : Bytes) (s : State l)
      → Connected l sock psd t ws s
      → Waiting psd (l.on_writable ws s.world) (answered l s) (asked_device l psd t ws uuid s)
  unfolding asked_device
  asked-Waiting psd t ws uuid s c = record {
    current = refl;
    cell = (
      print_message operation_prefix
          (request_text l (l.new_string device_name) (uuid_object l l.new_object uuid)) t,
      rw (==_self psd) refl,
    );
    mapped = c.found;
    flags = refl;
    same_world = refl;
  }

  -- It takes at most `k` calls of `lws_service` until a flag is set, none where one is set already.
  answer-Until :
      (psd k : ℕ) (w : l.World) (b : Bool) (s : State l)
      → Comes k w
      → Waiting psd w b s
      → (n : ℕ) × (s' : State l) × (w' : l.World) × (n ≤ k)
        × Until l (answered l) n s s'
        × Waiting psd w' true s'
  answer-Until psd k w true s c h = (0, s, w, omega arith, now h.flags, h)
  answer-Until psd k w false s c h =
      let (s', w', until, h') = Comes-Until psd k w s c h in (k, s', w', omega arith, until, h')

  -- A request for a device whose session and websocket are found, with memory for its message,
  -- returns a result and leaves neither flag set, if some call of `lws_service` delivers a
  -- message that is neither the request to identify nor the cloud's acceptance nor a device's
  -- update, or a write on the socket that fails, while all else that comes up to the end of that
  -- call are packets that are no messages, writes on the socket that succeed, failed connection
  -- attempts and closed connections; the fuel needed is the number of these calls.
  pub ws_device-Returns :
      (psd : ℕ) (t : Psd) (ws fuel k : ℕ) (uuid : Bytes) (json : JsonRaw) (s : State l)
      → Connected l sock psd t ws s
      → Comes k (l.on_writable ws s.world)
      → k ≤ fuel
      → Returns
          (λ r s'. (is_some r ≡ true) × (s'.got_response ≡ false) × (s'.connection_error ≡ false))
          (ws_device l fuel sock uuid json s)
  unfolding Over
  ws_device-Returns psd t ws fuel k uuid json s c answer enough =
      let (n, s', w', few, until, h) =
        answer-Until psd k (l.on_writable ws s.world) (answered l s)
          (asked_device l psd t ws uuid s) answer (asked-Waiting psd t ws uuid s c) in
      subst (Returns (Over l))
        (sym (ws_device-waits l sock psd t ws fuel n uuid json s s' c until (omega arith)))
        (reply_or_refused-Over l json s' psd h.cell.0 h.current h.cell.1)

  -- The world after so many calls of `lws_service`.
  abbrev pub world_after : ℕ → l.World → l.World
  world_after zero w = w
  world_after (suc n) w = world_after n (l.service w).1

  wait_on :
      (psd fuel : ℕ) (w : l.World) (s : State l)
      → ((n : ℕ) → All Harmless (l.service (world_after n w)).0)
      → Waiting psd w false s
      → Returns (λ ended s'. ended ≡ false) (wait l (answered l) fuel s)
  unfolding Returns wait lws_service
  wait_on psd zero w s silent h = h.flags
  wait_on psd (suc fuel) w s silent h =
      let (u, s1, p, h1) =
        Returns-ok (λ _ s'. Waiting psd (l.service w).1 false s')
          (run_callbacks l (l.service w).0 (served s w))
          (run-Harmless psd (l.service w).1 (l.service w).0 false (served s w) (silent 0)
            (served-Waiting psd w s h)) in
      subst (Returns (λ ended s'. ended ≡ false))
        (sym (
          rw (h.flags, wait)
            (ok->>= (lws_service l) (λ _. wait l (answered l) fuel) u s s1
              (rw (lws_service, ◌>>=◌, h.same_world) p))))
        (wait_on psd fuel (l.service w).1 s1 (λ n. silent (suc n)) h1)

  -- A request for a device whose session and websocket are found, with memory for its message,
  -- while neither flag is set, does not return, however much fuel there is, where all that
  -- `lws_service` ever delivers are packets that are no messages, writes on the socket that
  -- succeed, failed connection attempts and closed connections: that the cloud closes the
  -- connection does not end the wait.
  pub ws_device-waits_on :
      (psd : ℕ) (t : Psd) (ws fuel : ℕ) (uuid : Bytes) (json : JsonRaw) (s : State l)
      → Connected l sock psd t ws s
      → s.got_response ≡ false
      → s.connection_error ≡ false
      → ((n : ℕ) → All Harmless (l.service (world_after n (l.on_writable ws s.world))).0)
      → Returns (λ r s'. r ≡ none) (ws_device l fuel sock uuid json s)
  unfolding Returns ws_device asked_device
  ws_device-waits_on psd t ws fuel uuid json s c got failed silent =
      let s1 : State l = record s { psd = some psd } in
      let text = request_text l (l.new_string device_name) (uuid_object l l.new_object uuid) in
      let h = wait_on psd fuel (l.on_writable ws s.world) (asked_device l psd t ws uuid s) silent (
        subst (λ b. Waiting psd (l.on_writable ws s.world) b (asked_device l psd t ws uuid s))
          (ground (arith, got, failed)) (asked-Waiting psd t ws uuid s c)) in
      rw (c.found, c.object, c.array)
        (subst (Returns (λ r s'. r ≡ none))
          (sym (
            request-sent l s1 psd t ws operation_prefix text (answered l) fuel json
              (reset_response l) (reply_or_refused l json) c.cell c.listed))
          (Returns->>= (λ ended s'. ended ≡ false) (λ r s'. r ≡ none) (wait l (answered l) fuel)
            (λ ended. if ended then reply_or_refused l json else pure none)
            (sent l s1 psd t ws operation_prefix text) h λ ended s' p. rw (p) refl))
