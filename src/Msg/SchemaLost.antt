-- ===== src/Msg/SchemaLost.antt =====
-- src/msg.c: `msg_schema` on a trust that `trust_create` has made, and `msg_data` after it.
use knot_service_source.Common.{
  ℕ, ◌≡◌, refl, Bool, true, false, none, some, lookup, ◌==◌, ==_self, Bool-cases, inl, inr, arith,
  ap, ◌∙◌, sym, subst, List, [], ◌∷◌,
}
use knot_service_source.Env.{Env}
use knot_service_source.Env.Messages.{Bytes, MsgSchema, MsgData}
use knot_service_source.Common.Queue.{Queue}
use knot_service_source.Common.Monad.{ok, pure, ◌>>=◌}
use knot_service_source.Common.Hoare.{ok->>=, Holds, Holds->>=, Holds_ok}
use knot_service_source.Msg.Hoare.{OnlyWorld}
use knot_service_source.Msg.Quiet.{proto_schema-IsQuiet}
use knot_service_source.Msg.State.{Action, Config, Trust, State, write_at}
use knot_service_source.Msg.Trust.{trust_map_get, trust_create}
use knot_service_source.Msg.Run.{Reachable}
use knot_service_source.Msg.Created.{created-Online}
use knot_service_source.Msg.Cloud.{proto_schema}
use knot_service_source.Msg.Data.{
  find_schema, schema_tmp_add, schema_answered, schema_stored, msg_schema, msg_data, valid_schema,
  data_accepted,
}

module _ (e : Env) where
  -- The socket has this trust.
  abbrev Has : ℕ → Trust e.Val → State e → Type 0
  Has sock t s = (a : ℕ) × (lookup sock s.trust_map ≡ some a) × (s.heap a ≡ some t)

  -- Writing a trust that the socket has.
  write-Has :
      (sock a : ℕ) (t : Trust e.Val) (s : State e)
      → lookup sock s.trust_map ≡ some a
      → Has sock t (write_at e a (some t) s)
  write-Has sock a t s h = (a, h, rw (==_self a) refl)

  -- The state after the two assignments of `msg_schema`.
  abbrev stored : ℕ → Trust e.Val → MsgSchema → State e → State e
  stored a t schema s =
      write_at e a
        (some (record t { rollback = false; schema_tmp = schema_tmp_add t.schema_tmp schema }))
        (write_at e a (some (record t { rollback = false })) s)

  msg_schema-stored :
      (sock proto_sock a : ℕ) (schema : MsgSchema) (eof : Bool) (t : Trust e.Val) (s : State e)
      → lookup sock s.trust_map ≡ some a
      → s.heap a ≡ some t
      → msg_schema e sock proto_sock schema eof s
        ≡ schema_stored e a proto_sock eof (stored a t schema s)
  unfolding msg_schema trust_map_get
  msg_schema-stored sock proto_sock a schema eof t s h p =
      rw (h, msg_schema, ◌>>=◌) (rw (p, ==_self a, ◌>>=◌) refl)

  -- A sensor's schema that is not the last is answered with success and is not stored: a trust that
  -- has no queue `schema_tmp` has none afterwards either, and only `rollback` has changed.
  schema_not_stored :
      (sock proto_sock : ℕ) (schema : MsgSchema) (t : Trust e.Val) (s : State e)
      → Has sock t s
      → t.schema_tmp ≡ none
      → (s' : State e) × (msg_schema e sock proto_sock schema false s ≡ ok (e.success, s'))
        × Has sock (record t { rollback = false }) s'
  unfolding schema_stored schema_tmp_add
  schema_not_stored sock proto_sock schema t s (a, h, p) q = (
    stored a t schema s,
    msg_schema-stored sock proto_sock a schema false t s h p,
    (a, h, rw (==_self a) (rw q refl)),
  )

  -- The trust of the socket has no schema.
  abbrev NoSchema : ℕ → State e → Type 0
  NoSchema sock s = (t : Trust e.Val) × Has sock t s × (t.schema ≡ none)

  answered-NoSchema :
      (sock a result : ℕ) (t : Trust e.Val) (s : State e)
      → lookup sock s.trust_map ≡ some a
      → s.heap a ≡ some t
      → t.schema_tmp ≡ none
      → Holds (λ r s'. r ≡ e.success → NoSchema sock s') (schema_answered e a result s)
  unfolding Holds schema_answered
  answered-NoSchema sock a result t s h p q = elim (Bool-cases (result == e.success)) [
    | inl g ↦
        rw (g, schema_answered, Holds)
          (rw (p, Holds)
            λ _. (
              record t { schema = none; schema_tmp = none },
              (a, h, rw (==_self a) (rw q refl)),
              refl,
            ))
    | inr g ↦ rw (g, schema_answered, Holds) (rw (p, Holds) λ r. absurd (ground arith))
  ]

  schema_stored-NoSchema :
      (sock proto_sock a : ℕ) (t : Trust e.Val) (s : State e)
      → lookup sock s.trust_map ≡ some a
      → s.heap a ≡ some t
      → t.schema_tmp ≡ none
      → Holds (λ r s'. r ≡ e.success → NoSchema sock s') (schema_stored e a proto_sock true s)
  unfolding Holds schema_stored
  schema_stored-NoSchema sock proto_sock a t s h p q =
      rw (p, schema_stored, Holds)
        (Holds->>= (λ _ s'. OnlyWorld e s s') (λ r s'. r ≡ e.success → NoSchema sock s')
          (proto_schema e proto_sock t.uuid t.token t.schema_tmp) (schema_answered e a) s
          (proto_schema-IsQuiet e proto_sock t.uuid t.token t.schema_tmp s)
          λ r s1 k.
            answered-NoSchema sock a r t s1 (ap (λ u. lookup sock u.trust_map) k ∙ h)
              (ap (λ u. u.heap a) k ∙ p) q)

  data-NoSchema :
      (sock proto_sock : ℕ) (data_msg : MsgData e.Val) (s : State e)
      → NoSchema sock s
      → msg_data e sock proto_sock data_msg s ≡ ok (e.invalid_data, s)
  unfolding msg_data trust_map_get valid_schema find_schema data_accepted
  data-NoSchema sock proto_sock data_msg s (t, (a, h, p), q) =
      rw (h, msg_data, ◌>>=◌) (rw (p, ◌>>=◌) (rw q refl))

  data_after_last :
      (sock proto_sock : ℕ) (schema : MsgSchema) (data_msg : MsgData e.Val) (t : Trust e.Val)
      (s s' : State e)
      → Has sock t s
      → t.schema_tmp ≡ none
      → msg_schema e sock proto_sock schema true s ≡ ok (e.success, s')
      → msg_data e sock proto_sock data_msg s' ≡ ok (e.invalid_data, s')
  unfolding schema_tmp_add
  data_after_last sock proto_sock schema data_msg t s s' (a, h, p) q r =
      data-NoSchema sock proto_sock data_msg s' (
        Holds_ok (λ c u. c ≡ e.success → NoSchema sock u)
          (msg_schema e sock proto_sock schema true s) e.success s'
          (rw (msg_schema-stored sock proto_sock a schema true t s h p) (
            schema_stored-NoSchema sock proto_sock a
              (record t { rollback = false; schema_tmp = schema_tmp_add t.schema_tmp schema })
              (stored a t schema s) h (rw (==_self a) refl) (rw q refl)))
          r refl)

  -- The schemas of a node's sensors, before the last one.
  unfoldable pub send_schemas : ℕ → ℕ → List MsgSchema → Action e (Unit {0})
  send_schemas sock proto_sock [] = pure tt
  send_schemas sock proto_sock (schema ∷ rest) =
      msg_schema e sock proto_sock schema false >>= λ result. send_schemas sock proto_sock rest

  -- The socket has a trust without a queue `schema_tmp`.
  abbrev NoQueue : ℕ → State e → Type 0
  NoQueue sock s = (t : Trust e.Val) × Has sock t s × (t.schema_tmp ≡ none)

  send_schemas-NoQueue :
      (sock proto_sock : ℕ) (schemas : List MsgSchema) (s : State e)
      → NoQueue sock s
      → Holds (λ r s'. NoQueue sock s') (send_schemas sock proto_sock schemas s)
  unfolding Holds send_schemas
  send_schemas-NoQueue sock proto_sock [] s h = h
  send_schemas-NoQueue sock proto_sock (schema ∷ rest) s (t, h, q) =
      let (s1, p, h1) = schema_not_stored sock proto_sock schema t s h q in
      subst (Holds (λ r s'. NoQueue sock s'))
        (sym (
          ok->>= (msg_schema e sock proto_sock schema false)
            (λ result. send_schemas sock proto_sock rest) e.success s s1 p))
        (send_schemas-NoQueue sock proto_sock rest s1 (record t { rollback = false }, h1, q))

  -- Where `trust_create` has given a socket its trust, whatever schema it was given, any number of
  -- sensors' schemas have been sent after that, and a last one was answered with success, then the
  -- node's data is answered with `invalid_data` and the state stays as it is, so that nothing is sent
  -- to the cloud.
  pub data_after_schema :
      (sock proto_sock id pid : ℕ) (uuid token : Bytes) (rollback : Bool) (old : Queue MsgSchema)
      (config : Queue (Config e.Val)) (schemas : List MsgSchema) (schema : MsgSchema)
      (data_msg : MsgData e.Val) (r r' : Unit {0}) (s s1 s2 s3 : State e)
      → Reachable e s
      → trust_create e sock proto_sock uuid token id pid rollback old config s ≡ ok (r, s1)
      → send_schemas sock proto_sock schemas s1 ≡ ok (r', s2)
      → msg_schema e sock proto_sock schema true s2 ≡ ok (e.success, s3)
      → msg_data e sock proto_sock data_msg s3 ≡ ok (e.invalid_data, s3)
  data_after_schema sock proto_sock id pid uuid token rollback old config schemas schema data_msg r
        r' s s1 s2 s3 reached created sent last =
      let ((t, p, i), m) =
        created-Online e sock proto_sock id pid uuid token rollback old config s r s1 reached
          created in
      let (t2, h, q) =
        Holds_ok (λ x u. NoQueue sock u) (send_schemas sock proto_sock schemas s1) r' s2
          (send_schemas-NoQueue sock proto_sock schemas s1 (t, (s.next, m, p), i.no_schema_tmp))
          sent in
      data_after_last sock proto_sock schema data_msg t2 s2 s3 h q last
