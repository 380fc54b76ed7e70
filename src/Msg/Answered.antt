-- ===== src/Msg/Answered.antt =====
-- src/msg.c: the number of bytes that `msg_process` returns.
use knot_service_source.Common.{
  ℕ, ◌+◌, ◌-◌, ◌≤◌, ◌≡◌, subst, ◌⊎◌, inl, inr, refl, pos, Bool, true, false, ◌||◌, not, none, some,
  length, Option, Bool-cases, arith, if◌then◌else◌, ◌==◌, ltb,
}
use knot_service_source.Env.{Env}
use knot_service_source.Env.Messages.{Bytes, MsgRegister}
use knot_service_source.Common.Monad.{Result, ok, fault, M, pure, ◌>>=◌, ◌>>◌}
use knot_service_source.Msg.State.{State, Action, Trust}
use knot_service_source.Msg.Cloud.{Outcome, failed, success, proto_mknode, proto_signin}
use knot_service_source.Msg.Register.{
  Opdu, credentials, is_known, trust_of, register_signed_in, register_created, register_new,
  register_valid, msg_register, msg_unregister, msg_auth, msg_credential_create,
  msg_register_get_device_name, msg_register_has_valid_length, msg_register_has_valid_device_name,
  get_socket_credentials,
}
use knot_service_source.Msg.Data.{msg_schema, msg_data, msg_config_resp, msg_setdata_resp}
use knot_service_source.Msg.Process.{Answer, einval, finish, dispatch, msg_process}

module _ {S A : Type 0} where
  -- `P` of the result, where the call returns.
  unfoldable Returns : (A → Type 0) → Result (A × S) → Type 0
  Returns P (ok (a, s)) = P a
  Returns P (fault x) = Unit

  Returns-ok :
      (P : A → Type 0) (r : Result (A × S)) (a : A) (s : S) → Returns P r → r ≡ ok (a, s) → P a
  unfolding Returns
  Returns-ok P r a s h p = subst (Returns P) p h

module _ {S A B : Type 0} where
  -- Whatever the first call gives, the second one gives `P`.
  bind-Returns :
      (P : B → Type 0) (m : M S A) (f : A → M S B) (s : S)
      → ((a : A) (s' : S) → Returns P (f a s'))
      → Returns P ((m >>= f) s)
  unfolding Returns
  bind-Returns P m f s k = go (m s)
    where
      go : (r : Result (A × S)) → Returns P (elim r [ ok (a, s') ↦ f a s' | fault x ↦ fault x ])
      go (ok (a, s')) = k a s'
      go (fault x) = tt

  map-Returns :
      (Q : A → Type 0) (P : B → Type 0) (m : M S A) (f : A → B) (s : S)
      → Returns Q (m s)
      → ((a : A) → Q a → P (f a))
      → Returns P ((m >>= λ a. pure (f a)) s)
  unfolding Returns
  map-Returns Q P m f s h k = go (m s) h
    where
      go :
          (r : Result (A × S))
          → Returns Q r
          → Returns P (elim r [ ok (a, s') ↦ ok (f a, s') | fault x ↦ fault x ])
      go (ok (a, s')) q = k a q
      go (fault x) q = tt

module _ (e : Env) where
  -- The answer's payload is a result code or a credential.
  abbrev Fits : Opdu → Type 0
  Fits krsp =
      (krsp.payload_len ≡ e.result_size) ⊎ (krsp.payload_len ≡ e.credential_size - e.header_size)

  abbrev Always : {A : Type 0} → (A → Type 0) → Action e A → Type 0
  Always P m = (s : State e) → Returns P (m s)

  pure-Always : {A : Type 0} (P : A → Type 0) (a : A) → P a → Always P (pure a)
  unfolding Returns
  pure-Always P a p s = p

  abbrev FitsReply : ℕ × Opdu → Type 0
  FitsReply r = Fits r.1

  then-Always :
      {A B : Type 0} (P : B → Type 0) (m : Action e A) (f : A → Action e B)
      → ((a : A) → Always P (f a))
      → Always P (m >>= f)
  then-Always P m f k s = bind-Returns P m f s k

  if-Always :
      {A : Type 0} (P : A → Type 0) (b : Bool) (m n : Action e A)
      → Always P m
      → Always P n
      → Always P (if b then m else n)
  if-Always P true m n hm hn = hm
  if-Always P false m n hm hn = hn

  register_signed_in-Fits :
      {A : Type 0} (node proto : ℕ) (kreq : MsgRegister) (pid : ℕ) (krsp : Opdu) (c : Bytes × Bytes)
      (o : Outcome A)
      → Fits krsp
      → Always FitsReply (register_signed_in e node proto kreq pid krsp c o)
  unfolding register_signed_in msg_credential_create
  register_signed_in-Fits node proto kreq pid krsp (uuid, token) (failed code) h =
      pure-Always FitsReply (code, krsp) h
  register_signed_in-Fits node proto kreq pid krsp (uuid, token) (success x) h =
      then-Always FitsReply _ (λ _. pure (e.success, msg_credential_create e krsp uuid token))
        λ _. pure-Always FitsReply (e.success, msg_credential_create e krsp uuid token) (inr refl)

  register_created-Fits :
      (node proto : ℕ) (kreq : MsgRegister) (pid : ℕ) (krsp : Opdu) (o : Outcome (Bytes × Bytes))
      → Fits krsp
      → Always FitsReply (register_created e node proto kreq pid krsp o)
  unfolding register_created
  register_created-Fits node proto kreq pid krsp (failed code) h =
      pure-Always FitsReply (code, krsp) h
  register_created-Fits node proto kreq pid krsp (success (u, t)) h =
      then-Always FitsReply (proto_signin e false proto u t)
        (register_signed_in e node proto kreq pid krsp (u, t))
        λ o. register_signed_in-Fits node proto kreq pid krsp (u, t) o h

  register_new-Fits :
      (node proto len : ℕ) (kreq : MsgRegister) (pid : ℕ) (krsp : Opdu)
      → Fits krsp
      → Always FitsReply (register_new e node proto len kreq pid krsp)
  unfolding register_new
  register_new-Fits node proto len kreq pid krsp h s =
      bind-Returns FitsReply
        (proto_mknode e proto (msg_register_get_device_name e len kreq) kreq.id s.owner_uuid)
        (register_created e node proto kreq pid krsp) s
        λ o. register_created-Fits node proto kreq pid krsp o h

  register_found-Fits :
      (node proto len : ℕ) (kreq : MsgRegister) (pid : ℕ) (krsp : Opdu) (o : Option (Trust e.Val))
      → Fits krsp
      → Always FitsReply (elim o [
        | none ↦ register_new e node proto len kreq pid krsp
        | some t ↦
            if is_known e kreq pid t
            then pure (e.success, msg_credential_create e krsp t.uuid t.token)
            else register_new e node proto len kreq pid krsp
      ])
  unfolding msg_credential_create
  register_found-Fits node proto len kreq pid krsp none h =
      register_new-Fits node proto len kreq pid krsp h
  register_found-Fits node proto len kreq pid krsp (some t) h =
      if-Always FitsReply (is_known e kreq pid t) _ _
        (pure-Always FitsReply (e.success, msg_credential_create e krsp t.uuid t.token) (inr refl))
        (register_new-Fits node proto len kreq pid krsp h)

  register_valid-Fits :
      (node proto len : ℕ) (kreq : MsgRegister) (krsp : Opdu)
      → Fits krsp
      → Always FitsReply (register_valid e node proto len kreq krsp)
  unfolding register_valid get_socket_credentials
  register_valid-Fits node proto len kreq krsp h s =
      bind-Returns FitsReply (trust_of e node) _ s
        λ o. register_found-Fits node proto len kreq (credentials e node s.world).1 krsp o h

  msg_register-Fits :
      (node proto len : ℕ) (kreq : MsgRegister) (ilen : ℕ) (krsp : Opdu)
      → Fits krsp
      → Always FitsReply (msg_register e node proto len kreq ilen krsp)
  unfolding msg_register
  msg_register-Fits node proto len kreq ilen krsp h =
      if-Always FitsReply
        (not (msg_register_has_valid_length e ilen)
          || not (msg_register_has_valid_device_name e kreq))
        _ _ (pure-Always FitsReply (e.register_invalid_devicename, krsp) h)
        (register_valid-Fits node proto len kreq krsp h)

  -- `-EINVAL`, or a number of bytes that the room holds.
  abbrev pub InRoom : ℕ → Answer → Type 0
  InRoom omtu a = (a.0 ≡ einval) ⊎ ((k : ℕ) × (a.0 ≡ pos k) × (k ≤ omtu))

  -- The sizes of the KNOT structures: `knot_msg` is a union that has the answers as members.
  pub record SizesFit : Type 0 where
    pub result : e.header_size + e.result_size ≤ e.msg_size
    pub credential : e.credential_size ≤ e.msg_size
    pub header : e.header_size ≤ e.credential_size

  finish-InRoom :
      (omtu : ℕ) (kind : Option ℕ) (r : ℕ × Opdu)
      → SizesFit
      → e.msg_size ≤ omtu
      → FitsReply r
      → InRoom omtu (finish e kind r)
  unfolding finish
  finish-InRoom omtu kind (result, krsp) z m (inl p) =
      inr (e.header_size + krsp.payload_len, refl, omega (arith, z.result, p))
  finish-InRoom omtu kind (result, krsp) z m (inr p) =
      inr (e.header_size + krsp.payload_len, refl, omega (arith, z.credential, z.header, p))

  register-InRoom :
      (sock proto omtu : ℕ) (ipdu : Bytes) (krsp : Opdu)
      → SizesFit
      → e.msg_size ≤ omtu
      → krsp.payload_len ≡ e.result_size
      → Always (InRoom omtu) (
          msg_register e sock proto (e.hdr_payload_len ipdu) (e.as_register ipdu) (length ipdu) krsp
          >>= λ r. pure (finish e (some e.register_resp) r))
  register-InRoom sock proto omtu ipdu krsp z m h s =
      map-Returns FitsReply (InRoom omtu)
        (msg_register e sock proto (e.hdr_payload_len ipdu) (e.as_register ipdu) (length ipdu) krsp)
        (finish e (some e.register_resp)) s
        (msg_register-Fits sock proto (e.hdr_payload_len ipdu) (e.as_register ipdu) (length ipdu)
          krsp (inl h) s)
        λ r q. finish-InRoom omtu (some e.register_resp) r z m q

  dispatch-InRoom :
      (sock proto omtu : ℕ) (ipdu : Bytes) (krsp : Opdu)
      → SizesFit
      → e.msg_size ≤ omtu
      → krsp.payload_len ≡ e.result_size
      → Always (InRoom omtu) (dispatch e sock proto ipdu krsp)
  unfolding dispatch
  dispatch-InRoom sock proto omtu ipdu krsp z m h =
      let P = InRoom omtu in
      let reply : (kind : Option ℕ) (call : Action e ℕ)
          → Always P (call >>= λ r. pure (finish e kind (r, krsp))) =
        λ kind call.
          then-Always P call (λ r. pure (finish e kind (r, krsp)))
            λ r.
              pure-Always P (finish e kind (r, krsp))
                (finish-InRoom omtu kind (r, krsp) z m (inl h)) in
      let silent : (call : Action e ℕ) → Always P (call >> pure (pos 0, krsp)) = λ call.
        then-Always P call (λ _. pure (pos 0, krsp))
          λ _. pure-Always P (pos 0, krsp) (inr (0, refl, omega arith)) in
      if-Always P (e.hdr_type ipdu == e.register_req) _ _
        (register-InRoom sock proto omtu ipdu krsp z m h)
        (if-Always P (e.hdr_type ipdu == e.unregister_req) _ _
          (reply (some e.unregister_resp) (msg_unregister e sock proto))
          (if-Always P (e.hdr_type ipdu == e.data_req) _ _
            (reply (some e.data_resp) (msg_data e sock proto (e.as_data ipdu)))
            (if-Always P (e.hdr_type ipdu == e.auth_req) _ _
              (reply (some e.auth_resp) (msg_auth e sock proto (e.as_auth ipdu)))
              (if-Always P (e.hdr_type ipdu == e.schema_req || e.hdr_type ipdu == e.schema_end_req)
                _ _
                (reply
                  (some (
                    if e.hdr_type ipdu == e.schema_end_req
                    then e.schema_end_resp
                    else e.schema_resp))
                  (msg_schema e sock proto (e.as_schema ipdu)
                    (e.hdr_type ipdu == e.schema_end_req)))
                (if-Always P (e.hdr_type ipdu == e.config_resp) _ _
                  (silent (msg_config_resp e sock (e.as_item ipdu)))
                  (if-Always P (e.hdr_type ipdu == e.data_resp) _ _
                    (silent (msg_setdata_resp e sock proto (e.as_data ipdu)))
                    (pure-Always P (finish e none (e.invalid_data, krsp))
                      (finish-InRoom omtu none (e.invalid_data, krsp) z m (inl h)))))))))

  -- The answer of `msg_process` fits the room that the caller gives: where it returns, the result is
  -- `-EINVAL` or a number of bytes that is at most `omtu`, where the sizes of the KNOT structures fit
  -- into each other as those of a union and its members do.
  pub answer_fits :
      (sock proto_sock : ℕ) (ipdu : Bytes) (opdu : Opdu) (omtu : ℕ) (a : Answer) (s s' : State e)
      → SizesFit
      → msg_process e sock proto_sock ipdu opdu omtu s ≡ ok (a, s')
      → InRoom omtu a
  unfolding msg_process
  answer_fits sock proto_sock ipdu opdu omtu a s s' z =
      let krsp = record opdu { payload_len = e.result_size } in
      Returns-ok (InRoom omtu) (msg_process e sock proto_sock ipdu opdu omtu s) a s'
        (elim (Bool-cases (ltb omtu e.msg_size)) [
          | inl p ↦ rw (p, msg_process) (pure-Always (InRoom omtu) (einval, opdu) (inl refl) s)
          | inr p ↦
              rw (p, msg_process)
                (if-Always (InRoom omtu) (ltb (length ipdu) e.header_size) _ _
                  (pure-Always (InRoom omtu) (einval, krsp) (inl refl))
                  (if-Always (InRoom omtu)
                    (not (length ipdu == e.header_size + e.hdr_payload_len ipdu)) _ _
                    (pure-Always (InRoom omtu) (einval, krsp) (inl refl))
                    (dispatch-InRoom sock proto_sock omtu ipdu krsp z (ground arith) refl))
                  s)
        ])
