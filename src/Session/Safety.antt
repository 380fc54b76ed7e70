-- ===== src/Session/Safety.antt =====
-- src/session.c: the life of sessions and channels over any sequence of events.
use knot_service_source.Common.{
  without, ℕ, List, ◌∷◌, ◌≡◌, ◌≢◌, refl, subst, true, none, [], count_by, ◌+◌, arith,
}
use knot_service_source.Common.Queue.{entries}
use knot_service_source.Common.Monad.{ok, fault, dangling, freed_entry, pure}
use knot_service_source.Common.Hoare.{
  Holds, Holds->>=, Holds-not_dangling, Holds_ok, Returns, Returns->>=, Returns-weaken,
  Returns-Holds, Returns-ok,
}
use knot_service_source.Session.Driver.{Driver, Lawful}
use knot_service_source.Session.State.{State}
use knot_service_source.Session.Channels.{end_node_channel, destroy_node_channel}
use knot_service_source.Session.Node.{
  session_create, on_node_channel_data, on_node_channel_destroy_timeout,
}
use knot_service_source.Session.Invariant.{Counted, io_session}
use knot_service_source.Session.Steps.{world-Inv, timeouts-Inv}
use knot_service_source.Session.Kept.{
  Ended, SameNodes, end_node_channel-Returns, end_proto_channel-Returns,
}
use knot_service_source.Session.Handlers.{
  Steady, on_node_channel_data-Holds, session_create-Returns, session_destroy_all-Holds,
  session_destroy_all-freed,
}
use knot_service_source.Session.Run.{
  Event, accepted, node_data, node_hung_up, cloud_hung_up, timed_out, shut_down, initial, handle,
  Live, IsInternal, Reachable, started, handled, elsewhere,
}

module _ (d : Driver) (l : Lawful d) where
  pub initial-Steady : (w : d.World) → l.Valid w → Steady d l (initial d w)
  initial-Steady w v = (
    record {
      counted = λ _. refl;
      fresh = λ _ _. refl;
      connected = λ _ _ p. absurd (cc);
      listed = λ _ h. absurd (omega arith);
      once = λ _. omega arith;
      distinct = tt;
      new_node = λ _ _. refl;
      new_proto = λ _ _. refl;
    },
    v,
  )

  handle-Returns :
      (event : Event) (s : State d)
      → IsInternal event
      → Live d event s
      → Steady d l s
      → Returns (λ _ s'. Steady d l s') (handle d event s)
  unfolding handle on_node_channel_destroy_timeout destroy_node_channel Returns
  handle-Returns (accepted fd) s i live g =
      Returns->>= (λ _ s'. Steady d l s') (λ _ s'. Steady d l s') (session_create d fd)
        (λ _. pure tt) s (session_create-Returns d l fd s g) λ _ s' k. k
  handle-Returns (node_data c) s i live g = absurd i
  handle-Returns (node_hung_up c) s i (io, found) g =
      Returns-weaken (λ _ s'. Steady d l s' × Ended d l c io.session s s') (λ _ s'. Steady d l s')
        (end_node_channel d true c s) (end_node_channel-Returns d l true c io s found g)
        λ _ s' k. k.0
  handle-Returns (cloud_hung_up c) s i (io, found) g =
      Returns-weaken (λ _ s'. Steady d l s' × SameNodes d l s s') (λ _ s'. Steady d l s')
        (handle d (cloud_hung_up c) s) (end_proto_channel-Returns d l c io s found g) λ _ s' k. k.0
  handle-Returns (timed_out c) s i (io, found, pending) (v, w) =
      let s1 = record s { timeouts = without c s.timeouts } in
      Returns-weaken (λ _ s'. Steady d l s' × Ended d l c io.session s1 s') (λ _ s'. Steady d l s')
        (end_node_channel d d.disconnects c s1)
        (end_node_channel-Returns d l d.disconnects c io s1 found
          (timeouts-Inv d [] none s s.destroying (without c s.timeouts) v, w))
        λ _ s' k. k.0
  handle-Returns shut_down s i live g = absurd i

  internal :
      (event : Event) (s : State d)
      → IsInternal event
      → Live d event s
      → Steady d l s
      → Holds (λ _ s'. Steady d l s') (handle d event s)
  internal event s i live g =
      Returns-Holds (λ _ s'. Steady d l s') (handle d event s) (handle-Returns event s i live g)

  pub handle-Holds :
      (event : Event) (s : State d)
      → Live d event s
      → Steady d l s
      → Holds (λ _ s'. Steady d l s') (handle d event s)
  unfolding Holds handle
  handle-Holds (node_data c) s (io, found) g =
      Holds->>= (λ _ s'. Steady d l s') (λ _ s'. Steady d l s') (on_node_channel_data d c)
        (λ _. pure tt) s (on_node_channel_data-Holds d l c io s found g) λ _ s' k. k
  handle-Holds (accepted fd) s live g = internal (accepted fd) s tt live g
  handle-Holds (node_hung_up c) s live g = internal (node_hung_up c) s tt live g
  handle-Holds (cloud_hung_up c) s live g = internal (cloud_hung_up c) s tt live g
  handle-Holds (timed_out c) s live g = internal (timed_out c) s tt live g
  handle-Holds shut_down s live g = session_destroy_all-Holds d l s g

  pub Reachable-Steady : (s : State d) → Reachable d l s → Steady d l s
  Reachable-Steady _ (started w v) = initial-Steady w v
  Reachable-Steady _ (handled event s s' r live p) =
      Holds_ok (λ _ s'. Steady d l s') (handle d event s) tt s'
        (handle-Holds event s live (Reachable-Steady s r)) p
  Reachable-Steady _ (elsewhere s w r v) = (world-Inv d [] none s w (Reachable-Steady s r).0, v)

-- A session is allocated exactly while a node channel or a cloud channel was given it, and its
-- reference count is the number of those channels.
pub refs-Counted :
    (d : Driver) (l : Lawful d) (s : State d)
    → Reachable d l s
    → (a : ℕ)
    → Counted
        (s.heap a)
        (count_by io_session a s.node_channels + count_by io_session a s.proto_channels)
refs-Counted d l s r a =
    subst (Counted (s.heap a)) (omega arith) ((Reachable-Steady d l s r).0.counted a)

-- While its channels live, no event uses a freed session or channel.
sessions_not_dangling :
    (d : Driver) (l : Lawful d) (event : Event) (s : State d)
    → Reachable d l s
    → Live d event s
    → handle d event s ≢ fault dangling
sessions_not_dangling d l event s r live =
    Holds-not_dangling (λ _ s'. Steady d l s') (handle d event s)
      (handle-Holds d l event s live (Reachable-Steady d l s r))

-- A new node, the end of a channel and the timeout of a channel that exists run to their end from every
-- reachable state.
pub events_return :
    (d : Driver) (l : Lawful d) (event : Event) (s : State d)
    → Reachable d l s
    → IsInternal event
    → Live d event s
    → (s' : State d) × (handle d event s ≡ ok (tt, s'))
events_return d l event s r i live =
    let (a, s', p, q) =
      Returns-ok (λ _ s'. Steady d l s') (handle d event s)
        (handle-Returns d l event s i live (Reachable-Steady d l s r)) in
    (s', p)

-- A shutdown while a session is listed reads a freed entry of the queue, in every reachable state: that
-- the session's channel is destroyed takes the entry out of the queue under the loop.
pub shutdown_reads_freed :
    (d : Driver) (l : Lawful d) (s : State d) (a : ℕ) (rest : List ℕ)
    → Reachable d l s
    → entries s.session_list ≡ a ∷ rest
    → handle d shut_down s ≡ fault freed_entry
unfolding handle
shutdown_reads_freed d l s a rest r p =
    session_destroy_all-freed d l a rest s p (Reachable-Steady d l s r)
