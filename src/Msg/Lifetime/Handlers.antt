-- ===== src/Msg/Lifetime/Handlers.antt =====
-- The invariant of the objects, over `msg_register`, `msg_unregister` and `msg_auth` of src/msg.c.
use knot_service_source.Common.{
  ℕ, sym, subst, inl, inr, Bool, true, false, none, some, [], lookup, if◌then◌else◌, ◌==◌,
  Option-cases, Bool-cases, not, ◌||◌,
}
use knot_service_source.Common.Queue.{Queue}
use knot_service_source.Env.{Env}
use knot_service_source.Env.Messages.{Bytes, MsgSchema, MsgRegister, MsgAuthentication}
use knot_service_source.Common.Monad.{pure, ◌>>=◌}
use knot_service_source.Common.Hoare.{Holds, Holds->>=, Holds-weaken}
use knot_service_source.Msg.Hoare.{IsQuiet}
use knot_service_source.Msg.State.{State, Config, Action}
use knot_service_source.Msg.Trust.{trust_map_get, trust_map_remove, trust_create}
use knot_service_source.Msg.Quiet.{proto_rmnode-IsQuiet, proto_signin-IsQuiet, proto_mknode-IsQuiet}
use knot_service_source.Msg.Cloud.{
  Outcome, failed, success, proto_rmnode, proto_signin, proto_mknode,
}
use knot_service_source.Msg.Register.{
  Opdu, msg_register, register_valid, register_new, register_created, register_signed_in,
  msg_register_get_device_name, msg_unregister, unregister_answered, msg_auth, auth_signed_in,
  credentials, is_known, msg_credential_create, msg_register_has_valid_length,
  msg_register_has_valid_device_name,
}
use knot_service_source.Msg.Lifetime.Invariant.{Inv}
use knot_service_source.Msg.Lifetime.Steps.{world-Inv}
use knot_service_source.Msg.Lifetime.Trusts.{
  pure-Holds, mapped_alive, trust_map_remove-Holds, trust_create-Holds,
}

module _ (e : Env) where
  -- The call uses no freed memory, and keeps the invariant between two events.
  abbrev pub Keeps : {A : Type 0} → Action e A → Type 0
  Keeps m = (s : State e) → Inv e [] none s → Holds (λ _ s'. Inv e [] none s') (m s)

  pub IsQuiet-Keeps : {A : Type 0} (m : Action e A) → IsQuiet e m → Keeps m
  IsQuiet-Keeps m q s v =
      Holds-weaken _ _ _ (q s)
        λ _ s' p. subst (Inv e [] none) (sym p) (world-Inv e [] none s s'.world v)

  pub Keeps->>= :
      {A B : Type 0} (m : Action e A) (f : A → Action e B)
      → Keeps m
      → ((a : A) → Keeps (f a))
      → Keeps (m >>= f)
  Keeps->>= m f hm hf s v = Holds->>= _ _ m f s (hm s v) λ a s' i. hf a s' i

  pub pure-Keeps : {A : Type 0} (a : A) → Keeps (pure a)
  pure-Keeps a s v = pure-Holds e _ a s v

  pub if-Keeps :
      {A : Type 0} (b : Bool) (m n : Action e A) → Keeps m → Keeps n → Keeps (if b then m else n)
  if-Keeps true m n hm hn = hm
  if-Keeps false m n hm hn = hn

  remove-Keeps : (sock : ℕ) → Keeps (trust_map_remove e sock)
  remove-Keeps sock s v =
      Holds-weaken _ _ _ (trust_map_remove-Holds e [] none sock s v) λ _ s' i. i.0

  unregister_answered-Keeps : (sock result : ℕ) → Keeps (unregister_answered e sock result)
  unfolding unregister_answered
  unregister_answered-Keeps sock result = elim (Bool-cases (result == e.success)) [
    | inl h ↦
        rw (h, unregister_answered)
          (Keeps->>= (trust_map_remove e sock) (λ _. pure e.success) (remove-Keeps sock)
            λ _. pure-Keeps e.success)
    | inr h ↦ rw (h, unregister_answered) (pure-Keeps result)
  ]

  pub msg_unregister-Keeps : (sock proto : ℕ) → Keeps (msg_unregister e sock proto)
  unfolding Holds msg_unregister trust_map_get
  msg_unregister-Keeps sock proto s v = elim (Option-cases (lookup sock s.trust_map)) [
    | inl h ↦ rw (h, msg_unregister, Holds) v
    | inr (a, h) ↦
        let (t, p) = mapped_alive e [] none s sock a v h in
        rw (h, p, msg_unregister, Holds)
          (Keeps->>= (proto_rmnode e proto t.uuid t.token) (unregister_answered e sock)
            (IsQuiet-Keeps _ (proto_rmnode-IsQuiet e proto t.uuid t.token))
            (unregister_answered-Keeps sock) s v)
  ]

  create-Keeps :
      (node proto : ℕ) (u t : Bytes) (id pid : ℕ) (rollback : Bool) (q : Queue MsgSchema)
      (c : Queue (Config e.Val))
      → Keeps (trust_create e node proto u t id pid rollback q c)
  create-Keeps node proto u t id pid rollback q c s v =
      trust_create-Holds e node proto u t id pid rollback q c s v

  register_signed_in-Keeps :
      {A : Type 0} (node proto : ℕ) (kreq : MsgRegister) (pid : ℕ) (krsp : Opdu) (c : Bytes × Bytes)
      (r : Outcome A)
      → Keeps (register_signed_in e node proto kreq pid krsp c r)
  unfolding register_signed_in
  register_signed_in-Keeps node proto kreq pid krsp (u, t) (failed code) = pure-Keeps _
  register_signed_in-Keeps node proto kreq pid krsp (u, t) (success a) =
      Keeps->>= (trust_create e node proto u t _ _ true none none) (λ _. pure _)
        (create-Keeps node proto u t _ _ true none none) λ _. pure-Keeps _

  register_created-Keeps :
      (node proto : ℕ) (kreq : MsgRegister) (pid : ℕ) (krsp : Opdu) (r : Outcome (Bytes × Bytes))
      → Keeps (register_created e node proto kreq pid krsp r)
  unfolding register_created
  register_created-Keeps node proto kreq pid krsp (failed code) = pure-Keeps _
  register_created-Keeps node proto kreq pid krsp (success (u, t)) =
      Keeps->>= (proto_signin e false proto u t)
        (register_signed_in e node proto kreq pid krsp (u, t))
        (IsQuiet-Keeps _ (proto_signin-IsQuiet e false proto u t))
        (register_signed_in-Keeps node proto kreq pid krsp (u, t))

  register_new-Keeps :
      (node proto len : ℕ) (kreq : MsgRegister) (pid : ℕ) (krsp : Opdu)
      → Keeps (register_new e node proto len kreq pid krsp)
  unfolding register_new
  register_new-Keeps node proto len kreq pid krsp s v =
      Keeps->>=
        (proto_mknode e proto (msg_register_get_device_name e len kreq) kreq.id s.owner_uuid)
        (register_created e node proto kreq pid krsp)
        (IsQuiet-Keeps _ (proto_mknode-IsQuiet e proto _ kreq.id s.owner_uuid))
        (register_created-Keeps node proto kreq pid krsp) s v

  register_valid-Keeps :
      (node proto len : ℕ) (kreq : MsgRegister) (krsp : Opdu)
      → Keeps (register_valid e node proto len kreq krsp)
  unfolding Holds register_valid
  register_valid-Keeps node proto len kreq krsp s v =
      elim (Option-cases (lookup node s.trust_map)) [
        | inl h ↦
            rw (h, register_valid, Holds)
              (register_new-Keeps node proto len kreq (credentials e node s.world).1 krsp s v)
        | inr (a, h) ↦
            let (t, p) = mapped_alive e [] none s node a v h in
            rw (h, p, register_valid, Holds)
              (if-Keeps (is_known e kreq (credentials e node s.world).1 t) _
                (register_new e node proto len kreq (credentials e node s.world).1 krsp)
                (pure-Keeps {A = ℕ × Opdu} (e.success, msg_credential_create e krsp t.uuid t.token))
                (register_new-Keeps node proto len kreq (credentials e node s.world).1 krsp) s v)
      ]

  pub msg_register-Keeps :
      (node proto len : ℕ) (kreq : MsgRegister) (ilen : ℕ) (krsp : Opdu)
      → Keeps (msg_register e node proto len kreq ilen krsp)
  unfolding msg_register
  msg_register-Keeps node proto len kreq ilen krsp =
      if-Keeps
        (not (msg_register_has_valid_length e ilen)
          || not (msg_register_has_valid_device_name e kreq))
        (pure _) (register_valid e node proto len kreq krsp) (pure-Keeps _)
        (register_valid-Keeps node proto len kreq krsp)

  auth_signed_in-Keeps :
      (node proto : ℕ) (kmauth : MsgAuthentication)
      (r : Outcome (Queue MsgSchema × Queue (Config e.Val)))
      → Keeps (auth_signed_in e node proto kmauth r)
  unfolding auth_signed_in
  auth_signed_in-Keeps node proto kmauth (failed code) = pure-Keeps code
  auth_signed_in-Keeps node proto kmauth (success (none, config)) = pure-Keeps e.schema_empty
  auth_signed_in-Keeps node proto kmauth (success (some schema, config)) =
      Keeps->>= (trust_create e node proto _ _ 0 0 false (some schema) _) (λ _. pure e.success)
        (create-Keeps node proto _ _ 0 0 false (some schema) _) λ _. pure-Keeps e.success

  pub msg_auth-Keeps :
      (node proto : ℕ) (kmauth : MsgAuthentication) → Keeps (msg_auth e node proto kmauth)
  unfolding Holds msg_auth trust_map_get
  msg_auth-Keeps node proto kmauth s v = elim (Option-cases (lookup node s.trust_map)) [
    | inr (a, h) ↦ rw (h, msg_auth, Holds) v
    | inl h ↦
        rw (h, msg_auth, Holds)
          (Keeps->>= (proto_signin e true proto kmauth.uuid kmauth.token)
            (auth_signed_in e node proto kmauth)
            (IsQuiet-Keeps _ (proto_signin-IsQuiet e true proto kmauth.uuid kmauth.token))
            (auth_signed_in-Keeps node proto kmauth) s v)
  ]
