-- ===== src/Msg/Refused.antt =====
-- src/msg.c: `msg_process` on a socket without credentials, and on a malformed message.
use knot_service_source.Common.{
  ℕ, ◌+◌, ◌<◌, ◌≡◌, refl, ◌≢◌, ◌⊎◌, inl, inr, Bool, true, false, ◌||◌, none, some, length, lookup,
  Bool-cases, if◌then◌else◌, ◌==◌, ltb, not, arith, pos,
}
use knot_service_source.Env.{Env}
use knot_service_source.Env.Messages.{Bytes, MsgSchema, MsgData, MsgItem}
use knot_service_source.Common.Monad.{ok, pure, ◌>>=◌}
use knot_service_source.Msg.State.{State, Action}
use knot_service_source.Msg.Trust.{trust_map_get}
use knot_service_source.Msg.Register.{Opdu, msg_unregister}
use knot_service_source.Msg.Data.{msg_schema, msg_data, msg_config_resp, msg_setdata_resp}
use knot_service_source.Msg.Process.{Answer, einval, finish, dispatch, msg_process}

module _ (e : Env) where
  -- A socket that `trust_map` does not hold is answered `credential_unauthorized` by every operation
  -- but registration and authentication, and nothing changes: neither a trust nor the world, so that
  -- no driver is called.
  unauthorized :
      (sock proto_sock : ℕ) (schema : MsgSchema) (eof : Bool) (data_msg : MsgData e.Val)
      (item : MsgItem) (s : State e)
      → lookup sock s.trust_map ≡ none
      → (msg_unregister e sock proto_sock s ≡ ok (e.credential_unauthorized, s))
        × (msg_schema e sock proto_sock schema eof s ≡ ok (e.credential_unauthorized, s))
        × (msg_data e sock proto_sock data_msg s ≡ ok (e.credential_unauthorized, s))
        × (msg_config_resp e sock item s ≡ ok (e.credential_unauthorized, s))
        × (msg_setdata_resp e sock proto_sock data_msg s ≡ ok (e.credential_unauthorized, s))
  unfolding msg_unregister msg_schema msg_data msg_config_resp msg_setdata_resp trust_map_get
  unauthorized sock proto_sock schema eof data_msg item s h = (cc, cc, cc, cc, cc)

  -- The call returns, and the state is the one before.
  abbrev Unchanged : {A : Type 0} → Action e A → State e → Type 0
  Unchanged {A} m s = (a : A) × (m s ≡ ok (a, s))

  if-Unchanged :
      {A : Type 0} (b : Bool) (m n : Action e A) (s : State e)
      → Unchanged m s
      → Unchanged n s
      → Unchanged (if b then m else n) s
  if-Unchanged true m n s hm hn = hm
  if-Unchanged false m n s hm hn = hn

  then-Unchanged :
      {A B : Type 0} (m : Action e A) (a : A) (f : A → B) (s : State e)
      → m s ≡ ok (a, s)
      → Unchanged (m >>= λ x. pure (f x)) s
  then-Unchanged m a f s p = (f a, rw (p, ◌>>=◌) refl)

  -- A socket that `trust_map` does not hold changes nothing with a message that is neither a
  -- registration nor an authentication: `msg_process` returns and leaves the whole state, and with
  -- it the world, as it was.
  pub stranger_changes_nothing :
      (sock proto_sock : ℕ) (ipdu : Bytes) (opdu : Opdu) (omtu : ℕ) (s : State e)
      → lookup sock s.trust_map ≡ none
      → (e.hdr_type ipdu == e.register_req) ≡ false
      → (e.hdr_type ipdu == e.auth_req) ≡ false
      → (a : Answer) × (msg_process e sock proto_sock ipdu opdu omtu s ≡ ok (a, s))
  unfolding msg_process dispatch
  stranger_changes_nothing sock proto_sock ipdu opdu omtu s h reg auth =
      let krsp = record opdu { payload_len = e.result_size } in
      let u =
        unauthorized sock proto_sock (e.as_schema ipdu) (e.hdr_type ipdu == e.schema_end_req)
          (e.as_data ipdu) (e.as_item ipdu) s h in
      if-Unchanged {A = Answer} (ltb omtu e.msg_size) _ _ s (_, refl)
        (if-Unchanged {A = Answer} (ltb (length ipdu) e.header_size) _ _ s (_, refl)
          (if-Unchanged {A = Answer} (not (length ipdu == e.header_size + e.hdr_payload_len ipdu)) _
            _ s (_, refl)
            (rw (reg, auth)
              (if-Unchanged {A = Answer} (e.hdr_type ipdu == e.unregister_req) _ _ s
                (then-Unchanged (msg_unregister e sock proto_sock) _
                  (λ r. finish e (some e.unregister_resp) (r, krsp)) s u.0)
                (if-Unchanged {A = Answer} (e.hdr_type ipdu == e.data_req) _ _ s
                  (then-Unchanged (msg_data e sock proto_sock (e.as_data ipdu)) _
                    (λ r. finish e (some e.data_resp) (r, krsp)) s u.2)
                  (if-Unchanged {A = Answer}
                    (e.hdr_type ipdu == e.schema_req || e.hdr_type ipdu == e.schema_end_req) _ _ s
                    (then-Unchanged
                      (msg_schema e sock proto_sock (e.as_schema ipdu)
                        (e.hdr_type ipdu == e.schema_end_req))
                      _
                      (λ r.
                        finish e
                          (some (
                            if e.hdr_type ipdu == e.schema_end_req
                            then e.schema_end_resp
                            else e.schema_resp))
                          (r, krsp))
                      s u.1)
                    (if-Unchanged {A = Answer} (e.hdr_type ipdu == e.config_resp) _ _ s
                      (then-Unchanged (msg_config_resp e sock (e.as_item ipdu)) _
                        (λ r. (pos 0, krsp)) s u.3)
                      (if-Unchanged {A = Answer} (e.hdr_type ipdu == e.data_resp) _ _ s
                        (then-Unchanged (msg_setdata_resp e sock proto_sock (e.as_data ipdu)) _
                          (λ r. (pos 0, krsp)) s u.4)
                        (_, refl)))))))))

  -- A message is malformed for `msg_process` where the answer has no room, the header is cut off, or
  -- the length is not the one that the header promises.
  abbrev pub IsMalformed : Bytes → ℕ → Type 0
  IsMalformed ipdu omtu =
      (omtu < e.msg_size)
      ⊎ (length ipdu < e.header_size)
      ⊎ (length ipdu ≢ e.header_size + e.hdr_payload_len ipdu)

  -- A malformed message gets `-EINVAL` and changes nothing.
  malformed :
      (sock proto_sock : ℕ) (ipdu : Bytes) (opdu : Opdu) (omtu : ℕ) (s : State e)
      → IsMalformed ipdu omtu
      → (krsp : Opdu) × (msg_process e sock proto_sock ipdu opdu omtu s ≡ ok ((einval, krsp), s))
  unfolding msg_process
  malformed sock proto_sock ipdu opdu omtu s h =
      let krsp = record opdu { payload_len = e.result_size } in
      elim (Bool-cases (ltb omtu e.msg_size)) [
        | inl p ↦ (opdu, rw (p, msg_process) refl)
        | inr p ↦ elim (Bool-cases (ltb (length ipdu) e.header_size)) [
          | inl q ↦ (krsp, rw (p, q, msg_process) refl)
          | inr q ↦ elim (Bool-cases (length ipdu == e.header_size + e.hdr_payload_len ipdu)) [
            | inl r ↦ absurd (ground arith)
            | inr r ↦ (krsp, rw (p, q, r, msg_process) refl)
          ]
        ]
      ]
