-- ===== src/Msg/Register.antt =====
-- src/msg.c: `msg_register`, `msg_unregister` and `msg_auth`, which make and drop credentials.
use knot_service_source.Common.{
  c_string, ℕ, ◌+◌, ◌-◌, ◌%◌, ◌^◌, negsuc, Bool, true, false, ◌&&◌, ◌||◌, not, Option, none, some,
  [], ◌∷◌, take, if◌then◌else◌, ◌==◌, ltb, eq_ℤ,
}
use knot_service_source.Common.Queue.{Queue}
use knot_service_source.Env.{Env}
use knot_service_source.Env.Messages.{Bytes, MsgRegister, MsgAuthentication, MsgSchema}
use knot_service_source.Common.Monad.{pure, gets, ◌>>=◌, ◌>>◌}
use knot_service_source.Msg.State.{Config, Trust, Action, deref}
use knot_service_source.Msg.Trust.{trust_map_get, trust_map_remove, trust_create}
use knot_service_source.Msg.Config.{config_is_valid, truthy}
use knot_service_source.Msg.Cloud.{
  Outcome, failed, success, proto_mknode, proto_signin, proto_rmnode,
}

-- The answer: the members of `krsp` that src/msg.c writes. `kind` is its message type, nothing where
-- the type is an indeterminate value.
pub record Opdu : Type 0 where
  pub kind : Option ℕ
  pub payload_len : ℕ
  pub result : ℕ
  pub uuid : Bytes
  pub token : Bytes

-- `s[0] == '\0'`.
abbrev pub starts_with_nul : Bytes → Bool
starts_with_nul [] = true
starts_with_nul (c ∷ rest) = c == 0

-- A difference in `size_t`.
abbrev pub size_sub : ℕ → ℕ → ℕ
size_sub a b = (a + 2 ^ 64 - b) % 2 ^ 64

abbrev pub min : ℕ → ℕ → ℕ
min a b = if ltb a b then a else b

abbrev pub int32_max : ℕ
int32_max = 2147483647

module _ (e : Env) where
  unfoldable pub msg_register_has_valid_length : ℕ → Bool
  msg_register_has_valid_length length = ltb (e.header_size + e.id_size) length

  unfoldable pub msg_register_has_valid_device_name : MsgRegister → Bool
  msg_register_has_valid_device_name kreq = not (starts_with_nul kreq.dev_name)

  -- The first argument is `kreq->hdr.payload_len`.
  unfoldable pub msg_register_get_device_name : ℕ → MsgRegister → Bytes
  unfolding c_string
  msg_register_get_device_name payload_len kreq =
      let length = min (size_sub payload_len e.id_size) (e.device_name_len - 1) in
      c_string (take length kreq.dev_name)

  -- The result code, and the pid of the peer: 0 where the socket has no credentials.
  abbrev pub credentials : ℕ → e.World → ℕ × ℕ
  credentials sock w =
      let (r, pid) = e.peer_cred sock w in
      if eq_ℤ r (negsuc 0) then (e.error_unknown, 0) else (e.success, pid)

  unfoldable pub get_socket_credentials : ℕ → Action e (ℕ × ℕ)
  get_socket_credentials sock = gets λ s. credentials sock s.world

  unfoldable pub msg_credential_create : Opdu → Bytes → Bytes → Opdu
  msg_credential_create message uuid token = record message {
    uuid = uuid;
    token = token;
    payload_len = e.credential_size - e.header_size;
  }

  -- The trust of the same device, asked for by the same process.
  abbrev pub is_known : MsgRegister → ℕ → Trust e.Val → Bool
  is_known kreq pid trust = kreq.id == trust.id && trust.pid == pid

  unfoldable pub register_signed_in :
      {A : Type 0}
      → ℕ
      → ℕ
      → MsgRegister
      → ℕ
      → Opdu
      → Bytes × Bytes
      → Outcome A
      → Action e (ℕ × Opdu)
  unfolding msg_credential_create
  register_signed_in node_sock proto_sock kreq pid krsp (uuid, token) (failed code) =
      pure (code, krsp)
  register_signed_in node_sock proto_sock kreq pid krsp (uuid, token) (success _) = do
    trust_create e node_sock proto_sock uuid token kreq.id (if pid == 0 then int32_max else pid)
        true none none
    pure (e.success, msg_credential_create krsp uuid token)

  unfoldable pub register_created :
      ℕ → ℕ → MsgRegister → ℕ → Opdu → Outcome (Bytes × Bytes) → Action e (ℕ × Opdu)
  unfolding register_signed_in
  register_created node_sock proto_sock kreq pid krsp (failed code) = pure (code, krsp)
  register_created node_sock proto_sock kreq pid krsp (success (uuid, token)) = do
    signed ← proto_signin e false proto_sock uuid token
    register_signed_in node_sock proto_sock kreq pid krsp (uuid, token) signed

  unfoldable pub register_new : ℕ → ℕ → ℕ → MsgRegister → ℕ → Opdu → Action e (ℕ × Opdu)
  unfolding register_created msg_register_get_device_name
  register_new node_sock proto_sock payload_len kreq pid krsp = do
    owner_uuid ← gets λ s. s.owner_uuid
    created ←
        proto_mknode e proto_sock (msg_register_get_device_name payload_len kreq) kreq.id owner_uuid
    register_created node_sock proto_sock kreq pid krsp created

  -- The trust that the socket has, if it has one.
  abbrev pub trust_of : ℕ → Action e (Option (Trust e.Val))
  trust_of node_sock = do
    found ← trust_map_get e node_sock
    elim found [ none ↦ pure none | some trust ↦ do t ← deref e trust; pure (some t) ]

  unfoldable pub register_valid : ℕ → ℕ → ℕ → MsgRegister → Opdu → Action e (ℕ × Opdu)
  unfolding register_new get_socket_credentials msg_credential_create trust_map_get
  register_valid node_sock proto_sock payload_len kreq krsp = do
    cred ← get_socket_credentials node_sock
    trust ← trust_of node_sock
    elim trust [
      | none ↦ register_new node_sock proto_sock payload_len kreq cred.1 krsp
      | some t ↦
          if is_known kreq cred.1 t
          then pure (e.success, msg_credential_create krsp t.uuid t.token)
          else register_new node_sock proto_sock payload_len kreq cred.1 krsp
    ]

  -- Arguments: the sockets, `kreq->hdr.payload_len`, the request, its length and the answer.
  unfoldable pub msg_register : ℕ → ℕ → ℕ → MsgRegister → ℕ → Opdu → Action e (ℕ × Opdu)
  unfolding register_valid msg_register_has_valid_length msg_register_has_valid_device_name
  msg_register node_sock proto_sock payload_len kreq ilen krsp =
      if not (msg_register_has_valid_length ilen) || not (msg_register_has_valid_device_name kreq)
      then pure (e.register_invalid_devicename, krsp)
      else register_valid node_sock proto_sock payload_len kreq krsp

  unfoldable pub unregister_answered : ℕ → ℕ → Action e ℕ
  unregister_answered node_sock result =
      if result == e.success then (do trust_map_remove e node_sock; pure e.success) else pure result

  unfoldable pub msg_unregister : ℕ → ℕ → Action e ℕ
  unfolding unregister_answered trust_map_get
  msg_unregister node_sock proto_sock = do
    trust ← trust_of node_sock
    elim trust [
      | none ↦ pure e.credential_unauthorized
      | some t ↦ do
        result ← proto_rmnode e proto_sock t.uuid t.token
        unregister_answered node_sock result
    ]

  unfoldable pub auth_signed_in :
      ℕ → ℕ → MsgAuthentication → Outcome (Queue MsgSchema × Queue (Config e.Val)) → Action e ℕ
  auth_signed_in node_sock proto_sock kmauth (failed code) = pure code
  auth_signed_in node_sock proto_sock kmauth (success (none, config)) = pure e.schema_empty
  auth_signed_in node_sock proto_sock kmauth (success (some schema, config)) = do
    trust_create e node_sock proto_sock (c_string (take e.uuid_len kmauth.uuid))
        (c_string (take e.token_len kmauth.token)) 0 0 false (some schema)
        (if truthy (config_is_valid e config) then none else config)
    pure e.success

  unfoldable pub msg_auth : ℕ → ℕ → MsgAuthentication → Action e ℕ
  unfolding auth_signed_in trust_map_get c_string
  msg_auth node_sock proto_sock kmauth = do
    found ← trust_map_get e node_sock
    elim found [
      | some trust ↦ pure e.success
      | none ↦ do
        signed ← proto_signin e true proto_sock kmauth.uuid kmauth.token
        auth_signed_in node_sock proto_sock kmauth signed
    ]
