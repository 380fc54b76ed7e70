-- ===== src/Msg/Lifetime/DataHandlers.antt =====
-- The invariant of the objects, over the messages of a registered device in src/msg.c, and over
-- `msg_process`, which dispatches to all handlers.
use knot_service_source.Common.{
  ℕ, ◌≡◌, refl, sym, subst, inl, inr, Bool, true, false, Option, none, some, [], lookup,
  if◌then◌else◌, ◌==◌, Option-cases, Bool-cases, not, ◌||◌, length, ltb, ◌+◌, pos,
}
use knot_service_source.Env.{Env}
use knot_service_source.Env.Messages.{Bytes, MsgSchema, MsgData, MsgItem}
use knot_service_source.Common.Monad.{pure, ◌>>=◌, ◌>>◌}
use knot_service_source.Common.Hoare.{Holds, Holds->>=}
use knot_service_source.Msg.Hoare.{OnlyWorld}
use knot_service_source.Msg.State.{State, Trust, Action, assign}
use knot_service_source.Msg.Trust.{trust_map_get}
use knot_service_source.Msg.Quiet.{
  proto_schema-IsQuiet, proto_data-IsQuiet, update_device_getdata-IsQuiet,
  update_device_setdata-IsQuiet,
}
use knot_service_source.Msg.Cloud.{proto_schema, proto_data}
use knot_service_source.Msg.Register.{Opdu, msg_register, msg_unregister, msg_auth}
use knot_service_source.Msg.Data.{
  msg_schema, schema_stored, schema_answered, schema_tmp_add, msg_data, data_accepted,
  msg_config_resp, msg_setdata_resp, setdata_accepted, update_device_getdata, update_device_setdata,
  valid_schema,
}
use knot_service_source.Msg.Config.{trust_config_confirm}
use knot_service_source.Msg.Process.{Answer, einval, finish, msg_process, dispatch}
use knot_service_source.Msg.Lifetime.Invariant.{Inv}
use knot_service_source.Msg.Lifetime.Steps.{world-Inv, write-Inv}
use knot_service_source.Msg.Lifetime.Trusts.{pure-Holds, assign-Holds, mapped_alive}
use knot_service_source.Msg.Lifetime.Handlers.{
  Keeps, Keeps->>=, IsQuiet-Keeps, pure-Keeps, if-Keeps, msg_register-Keeps, msg_unregister-Keeps,
  msg_auth-Keeps,
}

module _ (e : Env) where
  -- The invariant, and a socket that maps to the trust at `a`.
  abbrev Mapped : ℕ → ℕ → State e → Type 0
  Mapped sock a s = Inv e [] none s × (lookup sock s.trust_map ≡ some a)

  OnlyWorld-Mapped :
      (sock a : ℕ) (s s' : State e) → OnlyWorld e s s' → Mapped sock a s → Mapped sock a s'
  OnlyWorld-Mapped sock a s s' q (v, h) =
      subst (Mapped sock a) (sym q) (world-Inv e [] none s s'.world v, h)

  -- An assignment that leaves the count and the watch alone.
  assign-Mapped :
      (sock a : ℕ) (f : Trust e.Val → Trust e.Val) (s : State e)
      → ((t : Trust e.Val) → (f t).refs ≡ t.refs)
      → ((t : Trust e.Val) → (f t).proto_watch ≡ t.proto_watch)
      → Mapped sock a s
      → Holds (λ _ s'. Mapped sock a s') (assign e a f s)
  assign-Mapped sock a f s r w (v, h) =
      let (t, p) = mapped_alive e [] none s sock a v h in
      assign-Holds e _ a f s t p (write-Inv e [] none s a t p (f t) (r t) (w t) v, h)

  assign-Keeps :
      (sock a result : ℕ) (f : Trust e.Val → Trust e.Val) (s : State e)
      → ((t : Trust e.Val) → (f t).refs ≡ t.refs)
      → ((t : Trust e.Val) → (f t).proto_watch ≡ t.proto_watch)
      → Mapped sock a s
      → Holds (λ _ s'. Inv e [] none s') ((assign e a f >> pure result) s)
  assign-Keeps sock a result f s r w m =
      Holds->>= _ _ (assign e a f) (λ _. pure result) s (assign-Mapped sock a f s r w m)
        λ _ s' k. pure-Holds e _ result s' k.0

  schema_answered-Keeps :
      (sock a result : ℕ) (s : State e)
      → Mapped sock a s
      → Holds (λ _ s'. Inv e [] none s') (schema_answered e a result s)
  unfolding schema_answered
  schema_answered-Keeps sock a result s m = elim (Bool-cases (result == e.success)) [
    | inl h ↦
        rw (h, schema_answered)
          (assign-Keeps sock a result (λ t. record t { schema = t.schema_tmp; schema_tmp = none }) s
            (λ t. refl) (λ t. refl) m)
    | inr h ↦
        rw (h, schema_answered)
          (assign-Keeps sock a result (λ t. record t { schema_tmp = none }) s (λ t. refl)
            (λ t. refl) m)
  ]

  schema_stored-Keeps :
      (sock a proto : ℕ) (eof : Bool) (s : State e)
      → Mapped sock a s
      → Holds (λ _ s'. Inv e [] none s') (schema_stored e a proto eof s)
  unfolding Holds schema_stored
  schema_stored-Keeps sock a proto false s m = m.0
  schema_stored-Keeps sock a proto true s m =
      let (t, p) = mapped_alive e [] none s sock a m.0 m.1 in
      rw (p, schema_stored, Holds)
        (Holds->>= (λ _ s'. OnlyWorld e s s') (λ _ s'. Inv e [] none s')
          (proto_schema e proto t.uuid t.token t.schema_tmp) (schema_answered e a) s
          (proto_schema-IsQuiet e proto t.uuid t.token t.schema_tmp s)
          λ result s' q. schema_answered-Keeps sock a result s' (OnlyWorld-Mapped sock a s s' q m))

  pub msg_schema-Keeps :
      (sock proto : ℕ) (schema : MsgSchema) (eof : Bool)
      → Keeps e (msg_schema e sock proto schema eof)
  unfolding Holds msg_schema trust_map_get
  msg_schema-Keeps sock proto schema eof s v = elim (Option-cases (lookup sock s.trust_map)) [
    | inl h ↦ rw (h, msg_schema, Holds) v
    | inr (a, h) ↦
        rw (h, msg_schema, Holds)
          (Holds->>= (λ _ s'. Mapped sock a s') _ (assign e a (λ t. record t { rollback = false }))
            (λ _.
              assign e a (λ t. record t { schema_tmp = schema_tmp_add t.schema_tmp schema })
              >> schema_stored e a proto eof)
            s
            (assign-Mapped sock a (λ t. record t { rollback = false }) s (λ t. refl) (λ t. refl)
              (v, h))
            λ _ s1 m.
              Holds->>= (λ _ s'. Mapped sock a s') _
                (assign e a (λ t. record t { schema_tmp = schema_tmp_add t.schema_tmp schema }))
                (λ _. schema_stored e a proto eof) s1
                (assign-Mapped sock a
                  (λ t. record t { schema_tmp = schema_tmp_add t.schema_tmp schema }) s1 (λ t. refl)
                  (λ t. refl) m)
                λ _ s2 n. schema_stored-Keeps sock a proto eof s2 n)
  ]

  data_accepted-Keeps :
      (proto : ℕ) (t : Trust e.Val) (d : MsgData e.Val) (o : Option MsgSchema)
      → Keeps e (data_accepted e proto t d o)
  unfolding data_accepted
  data_accepted-Keeps proto t d none = pure-Keeps e e.invalid_data
  data_accepted-Keeps proto t d (some schema) =
      Keeps->>= e (proto_data e proto t.uuid t.token d.sensor_id schema.value_type d.payload)
        (λ result. update_device_getdata e proto t.uuid t.token d.sensor_id >> pure result)
        (IsQuiet-Keeps e _
          (proto_data-IsQuiet e proto t.uuid t.token d.sensor_id schema.value_type d.payload))
        λ result.
          Keeps->>= e (update_device_getdata e proto t.uuid t.token d.sensor_id) (λ _. pure result)
            (IsQuiet-Keeps e _ (update_device_getdata-IsQuiet e proto t.uuid t.token d.sensor_id))
            λ _. pure-Keeps e result

  pub msg_data-Keeps : (sock proto : ℕ) (d : MsgData e.Val) → Keeps e (msg_data e sock proto d)
  unfolding Holds msg_data trust_map_get
  msg_data-Keeps sock proto d s v = elim (Option-cases (lookup sock s.trust_map)) [
    | inl h ↦ rw (h, msg_data, Holds) v
    | inr (a, h) ↦
        let (t, p) = mapped_alive e [] none s sock a v h in
        rw (h, p, msg_data, Holds)
          (data_accepted-Keeps proto t d (valid_schema e t d.sensor_id) s v)
  ]

  setdata_accepted-Keeps :
      (proto : ℕ) (t : Trust e.Val) (d : MsgData e.Val) (o : Option MsgSchema)
      → Keeps e (setdata_accepted e proto t d o)
  unfolding setdata_accepted
  setdata_accepted-Keeps proto t d none = pure-Keeps e e.invalid_data
  setdata_accepted-Keeps proto t d (some schema) =
      Keeps->>= e (update_device_setdata e proto t.uuid t.token d.sensor_id)
        (λ _. proto_data e proto t.uuid t.token d.sensor_id schema.value_type d.payload)
        (IsQuiet-Keeps e _ (update_device_setdata-IsQuiet e proto t.uuid t.token d.sensor_id))
        λ _.
          IsQuiet-Keeps e _
            (proto_data-IsQuiet e proto t.uuid t.token d.sensor_id schema.value_type d.payload)

  pub msg_setdata_resp-Keeps :
      (sock proto : ℕ) (d : MsgData e.Val) → Keeps e (msg_setdata_resp e sock proto d)
  unfolding Holds msg_setdata_resp trust_map_get
  msg_setdata_resp-Keeps sock proto d s v = elim (Option-cases (lookup sock s.trust_map)) [
    | inl h ↦ rw (h, msg_setdata_resp, Holds) v
    | inr (a, h) ↦
        let (t, p) = mapped_alive e [] none s sock a v h in
        rw (h, p, msg_setdata_resp, Holds)
          (setdata_accepted-Keeps proto t d (valid_schema e t d.sensor_id) s v)
  ]

  pub msg_config_resp-Keeps :
      (sock : ℕ) (response : MsgItem) → Keeps e (msg_config_resp e sock response)
  unfolding Holds msg_config_resp trust_map_get
  msg_config_resp-Keeps sock response s v = elim (Option-cases (lookup sock s.trust_map)) [
    | inl h ↦ rw (h, msg_config_resp, Holds) v
    | inr (a, h) ↦
        rw (h, msg_config_resp, Holds)
          (assign-Keeps sock a e.success
            (λ t. record t { config = trust_config_confirm e response.sensor_id t.config }) s
            (λ t. refl) (λ t. refl) (v, h))
  ]

  -- A handler, and then the answer that is made of its result.
  answered :
      {A B : Type 0} (m : Action e A) (f : A → B) → Keeps e m → Keeps e (m >>= λ a. pure (f a))
  answered m f h = Keeps->>= e m (λ a. pure (f a)) h λ a. pure-Keeps e (f a)

  pub dispatch-Keeps :
      (sock proto : ℕ) (ipdu : Bytes) (krsp : Opdu) → Keeps e (dispatch e sock proto ipdu krsp)
  unfolding dispatch
  dispatch-Keeps sock proto ipdu krsp =
      if-Keeps e (e.hdr_type ipdu == e.register_req) _ _
        (answered
          (msg_register e sock proto (e.hdr_payload_len ipdu) (e.as_register ipdu) (length ipdu)
            krsp)
          (finish e (some e.register_resp))
          (msg_register-Keeps e sock proto (e.hdr_payload_len ipdu) (e.as_register ipdu)
            (length ipdu) krsp))
        (if-Keeps e (e.hdr_type ipdu == e.unregister_req) _ _
          (answered (msg_unregister e sock proto) (λ r. finish e (some e.unregister_resp) (r, krsp))
            (msg_unregister-Keeps e sock proto))
          (if-Keeps e (e.hdr_type ipdu == e.data_req) _ _
            (answered (msg_data e sock proto (e.as_data ipdu))
              (λ r. finish e (some e.data_resp) (r, krsp))
              (msg_data-Keeps sock proto (e.as_data ipdu)))
            (if-Keeps e (e.hdr_type ipdu == e.auth_req) _ _
              (answered (msg_auth e sock proto (e.as_auth ipdu))
                (λ r. finish e (some e.auth_resp) (r, krsp))
                (msg_auth-Keeps e sock proto (e.as_auth ipdu)))
              (if-Keeps e (e.hdr_type ipdu == e.schema_req || e.hdr_type ipdu == e.schema_end_req) _
                _
                (answered
                  (msg_schema e sock proto (e.as_schema ipdu) (e.hdr_type ipdu == e.schema_end_req))
                  (λ r.
                    finish e
                      (some (
                        if e.hdr_type ipdu == e.schema_end_req
                        then e.schema_end_resp
                        else e.schema_resp))
                      (r, krsp))
                  (msg_schema-Keeps sock proto (e.as_schema ipdu) _))
                (if-Keeps e (e.hdr_type ipdu == e.config_resp) _ _
                  (answered (msg_config_resp e sock (e.as_item ipdu)) (λ _. (pos 0, krsp))
                    (msg_config_resp-Keeps sock (e.as_item ipdu)))
                  (if-Keeps e (e.hdr_type ipdu == e.data_resp) _ _
                    (answered (msg_setdata_resp e sock proto (e.as_data ipdu)) (λ _. (pos 0, krsp))
                      (msg_setdata_resp-Keeps sock proto (e.as_data ipdu)))
                    (pure-Keeps e (finish e none (e.invalid_data, krsp)))))))))

  pub msg_process-Keeps :
      (sock proto : ℕ) (ipdu : Bytes) (opdu : Opdu) (omtu : ℕ)
      → Keeps e (msg_process e sock proto ipdu opdu omtu)
  unfolding msg_process
  msg_process-Keeps sock proto ipdu opdu omtu =
      let krsp = record opdu { payload_len = e.result_size } in
      if-Keeps e {A = Answer} (ltb omtu e.msg_size) _ _ (pure-Keeps e {A = Answer} (einval, opdu)) (
        if-Keeps e {A = Answer} (ltb (length ipdu) e.header_size) _ _
          (pure-Keeps e {A = Answer} (einval, krsp))
          (if-Keeps e {A = Answer} (not (length ipdu == e.header_size + e.hdr_payload_len ipdu)) _ _
            (pure-Keeps e {A = Answer} (einval, krsp)) (dispatch-Keeps sock proto ipdu krsp)))
