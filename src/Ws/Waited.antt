-- ===== src/Ws/Waited.antt =====
-- src/proto-ws.c: the loops that serve the context until a flag is set.
use knot_service_source.Common.{
  ℕ, zero, suc, ◌≤◌, ◌≡◌, refl, ◌∙◌, Bool, true, false, none, some, lookup, if◌then◌else◌, ◌==◌,
  arith,
}
use knot_service_source.Common.Monad.{ok, pure, ◌>>=◌}
use knot_service_source.Common.Hoare.{ok->>=}
use knot_service_source.Env.Messages.{Bytes}
use knot_service_source.Env.Raw.{JsonRaw}
use knot_service_source.Ws.Table.{queue_at}
use knot_service_source.Ws.Service.{Service}
use knot_service_source.Ws.Receive.{Psd, State, Action, lws_service}
use knot_service_source.Ws.Request.{
  Reply, wait, print_message, send, exchange, request, with_session,
}

module _ (l : Service) where
  -- `Until done k s s'`: it takes `k` calls of `lws_service` from `s` until `done` holds, in `s'`.
  pub data Until (done : State l → Bool) : ℕ → State l → State l → Type 0 where
    now : {s : State l} → done s ≡ true → Until done 0 s s
    later :
        {k : ℕ} {s s1 s' : State l}
        → done s ≡ false
        → lws_service l s ≡ ok (tt, s1)
        → Until done k s1 s'
        → Until done (suc k) s s'

  -- Enough fuel: the loop ends in that state.
  pub wait-Until :
      (done : State l → Bool) (k fuel : ℕ) (s s' : State l)
      → Until done k s s'
      → k ≤ fuel
      → wait l done fuel s ≡ ok (true, s')
  unfolding wait
  wait-Until done _ zero s _ (now p) h = rw (p) refl
  wait-Until done _ (suc fuel) s _ (now p) h = rw (p) refl
  wait-Until done _ zero s s' (later p q rest) h = absurd (omega arith)
  wait-Until done _ (suc fuel) _ s' (later {k} {s} {s1} p q rest) h = rw (p) (
      ok->>= (lws_service l) (λ _. wait l done fuel) tt s s1 q
      ∙ wait-Until done k fuel s1 s' rest (omega arith))

  -- The state in which the wait begins.
  abbrev pub sent : State l → ℕ → Psd → ℕ → Bytes → Bytes → State l
  sent s psd t ws prefix text = record s {
    heap = λ x. if x == psd then some (print_message prefix text t) else s.heap x;
    world = l.on_writable ws s.world;
  }

  pub send-sent :
      (s : State l) (psd : ℕ) (t : Psd) (ws : ℕ) (prefix text : Bytes)
      → s.heap psd ≡ some t
      → send l psd ws prefix text s ≡ ok (tt, sent s psd t ws prefix text)
  unfolding send
  send-sent s psd t ws prefix text cell = rw (send, ◌>>=◌, cell) refl

  -- A request waits once its message is printed.
  pub request-sent :
      (s : State l) (psd : ℕ) (t : Psd) (ws : ℕ) (prefix text : Bytes) (done : State l → Bool)
      (fuel : ℕ) (json : JsonRaw) (leave : Reply l → Action l (Reply l))
      (finish : Action l (Reply l))
      → s.heap psd ≡ some t
      → queue_at s.wsis t.index ≡ some ws
      → request l psd prefix text done fuel json leave finish s
        ≡ (wait l done fuel >>= λ ended. if ended then finish else pure none)
            (sent s psd t ws prefix text)
  unfolding request exchange send
  request-sent s psd t ws prefix text done fuel json leave finish cell found =
      rw (request, ◌>>=◌, cell, found, exchange, ◌>>=◌, send-sent s psd t ws prefix text cell) refl

  pub request-Until :
      (s s' : State l) (psd : ℕ) (t : Psd) (ws : ℕ) (prefix text : Bytes) (done : State l → Bool)
      (k fuel : ℕ) (json : JsonRaw) (leave : Reply l → Action l (Reply l))
      (finish : Action l (Reply l))
      → s.heap psd ≡ some t
      → queue_at s.wsis t.index ≡ some ws
      → Until done k (sent s psd t ws prefix text) s'
      → k ≤ fuel
      → request l psd prefix text done fuel json leave finish s ≡ finish s'
  unfolding request exchange send
  request-Until s s' psd t ws prefix text done k fuel json leave finish cell found until h =
      rw
        (
          request,
          ◌>>=◌,
          cell,
          found,
          exchange,
          ◌>>=◌,
          send-sent s psd t ws prefix text cell,
          wait-Until done k fuel (sent s psd t ws prefix text) s' until h,
        )
        refl

  pub with_session-found :
      (sock psd : ℕ) (json : JsonRaw) (body : ℕ → Action l (Reply l)) (s : State l)
      → lookup sock s.wstable ≡ some psd
      → with_session l sock json body s ≡ body psd (record s { psd = some psd })
  with_session-found sock psd json body s found = rw (found) refl
