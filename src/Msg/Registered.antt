-- ===== src/Msg/Registered.antt =====
-- src/msg.c: registration and authentication of a node, the first time and again.
use knot_service_source.Common.{
  c_string, ℕ, ◌<◌, ◌≤◌, ◌≡◌, ◌≢◌, refl, true, some, [], ◌∷◌, lookup, arith, take, length,
  length-take, All, ==_self, ◌-◌,
}
use knot_service_source.Env.{Env}
use knot_service_source.Env.Messages.{Bytes, MsgRegister}
use knot_service_source.Common.Monad.{ok, ◌>>=◌}
use knot_service_source.Msg.State.{Trust, State}
use knot_service_source.Msg.Trust.{trust_map_get}
use knot_service_source.Msg.Register.{
  Opdu, min, size_sub, credentials, msg_register, register_valid, msg_register_has_valid_length,
  msg_register_has_valid_device_name, msg_register_get_device_name, msg_credential_create,
  get_socket_credentials,
}

length-c_string : (s : Bytes) → length (c_string s) ≤ length s
unfolding c_string
length-c_string [] = omega arith
length-c_string (c ∷ rest) = ground (arith, length-c_string rest)

c_string-NoNul : (s : Bytes) → All (λ c. c ≢ 0) (c_string s)
unfolding c_string
c_string-NoNul [] = tt
c_string-NoNul (c ∷ rest) = ground (arith, c_string-NoNul rest)

module _ (e : Env) where
  -- The device name that goes to the cloud fits the buffer of `device_name_len` bytes with its NUL and
  -- has no NUL inside, whatever length the header of the request claims, where that buffer is not
  -- empty.
  pub device_name_fits :
      (payload_len : ℕ) (kreq : MsgRegister)
      → 0 < e.device_name_len
      → (length (msg_register_get_device_name e payload_len kreq) < e.device_name_len)
        × All (λ c. c ≢ 0) (msg_register_get_device_name e payload_len kreq)
  unfolding msg_register_get_device_name
  device_name_fits payload_len kreq h =
      let n = min (size_sub payload_len e.id_size) (e.device_name_len - 1) in
      let small : n ≤ e.device_name_len - 1 =
        min-right (size_sub payload_len e.id_size) (e.device_name_len - 1) in
      (
        omega (arith, small, length-c_string (take n kreq.dev_name), length-take n kreq.dev_name),
        c_string-NoNul (take n kreq.dev_name),
      )
    where
      min-right : (a b : ℕ) → min a b ≤ b
      min-right a b = ground arith

  -- A registration that is sent again, with the id and from the process of the trust that the socket
  -- has, is answered with success and the credentials of that trust, and nothing changes: no device is
  -- made in the cloud again.
  register_again :
      (sock proto_sock payload_len ilen a : ℕ) (kreq : MsgRegister) (krsp : Opdu) (t : Trust e.Val)
      (s : State e)
      → msg_register_has_valid_length e ilen ≡ true
      → msg_register_has_valid_device_name e kreq ≡ true
      → lookup sock s.trust_map ≡ some a
      → s.heap a ≡ some t
      → kreq.id ≡ t.id
      → (credentials e sock s.world).1 ≡ t.pid
      → msg_register e sock proto_sock payload_len kreq ilen krsp s
        ≡ ok ((e.success, msg_credential_create e krsp t.uuid t.token), s)
  unfolding msg_register register_valid trust_map_get get_socket_credentials
  register_again sock proto_sock payload_len ilen a kreq krsp t s hl hn h p same_id same_pid =
      rw (hl, hn, msg_register, h, register_valid, ◌>>=◌)
        (rw p (rw (same_id, same_pid, ==_self t.id, ==_self t.pid) refl))
