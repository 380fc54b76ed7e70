-- ===== src/Msg/Process.antt =====
-- src/msg.c: `msg_process`, the entry point for a node's message.
use knot_service_source.Common.{
  ℕ, ◌+◌, ℤ, pos, negsuc, not, ◌||◌, Option, none, some, length, if◌then◌else◌, ◌==◌, ltb,
}
use knot_service_source.Env.{Env}
use knot_service_source.Env.Messages.{Bytes}
use knot_service_source.Common.Monad.{pure, ◌>>=◌, ◌>>◌}
use knot_service_source.Msg.State.{Action}
use knot_service_source.Msg.Register.{Opdu, msg_register, msg_unregister, msg_auth}
use knot_service_source.Msg.Data.{msg_schema, msg_data, msg_config_resp, msg_setdata_resp}

-- `-EINVAL`.
abbrev pub einval : ℤ
einval = negsuc 21

-- What `msg_process` returns, and the answer.
abbrev pub Answer : Type 0
Answer = ℤ × Opdu

module _ (e : Env) where
  -- The lines after the `switch`. No `rtype` means that the code has not assigned it.
  unfoldable pub finish : Option ℕ → ℕ × Opdu → Answer
  finish rtype (result, krsp) =
      (pos (e.header_size + krsp.payload_len), record krsp { kind = rtype; result = result })

  -- The cases of the `switch` on `kreq->hdr.type`.
  unfoldable pub dispatch : ℕ → ℕ → Bytes → Opdu → Action e Answer
  unfolding finish
  dispatch sock proto_sock ipdu krsp =
      if e.hdr_type ipdu == e.register_req
      then (do
        r ←
            msg_register e sock proto_sock (e.hdr_payload_len ipdu) (e.as_register ipdu)
              (length ipdu) krsp
        pure (finish (some e.register_resp) r))
      else if e.hdr_type ipdu == e.unregister_req
      then (do
        result ← msg_unregister e sock proto_sock
        pure (finish (some e.unregister_resp) (result, krsp)))
      else if e.hdr_type ipdu == e.data_req
      then (do
        result ← msg_data e sock proto_sock (e.as_data ipdu)
        pure (finish (some e.data_resp) (result, krsp)))
      else if e.hdr_type ipdu == e.auth_req
      then (do
        result ← msg_auth e sock proto_sock (e.as_auth ipdu)
        pure (finish (some e.auth_resp) (result, krsp)))
      else if e.hdr_type ipdu == e.schema_req || e.hdr_type ipdu == e.schema_end_req
      then (do
        let eof = e.hdr_type ipdu == e.schema_end_req
        result ← msg_schema e sock proto_sock (e.as_schema ipdu) eof
        pure (finish (some (if eof then e.schema_end_resp else e.schema_resp)) (result, krsp)))
      else if e.hdr_type ipdu == e.config_resp
      then (do msg_config_resp e sock (e.as_item ipdu); pure (pos 0, krsp))
      else if e.hdr_type ipdu == e.data_resp
      then (do msg_setdata_resp e sock proto_sock (e.as_data ipdu); pure (pos 0, krsp))
      else pure (finish none (e.invalid_data, krsp))

  -- `ilen` is the length of `ipdu`; `omtu` is the room for the answer `opdu`.
  unfoldable pub msg_process : ℕ → ℕ → Bytes → Opdu → ℕ → Action e Answer
  unfolding dispatch
  msg_process sock proto_sock ipdu opdu omtu =
      let krsp = record opdu { payload_len = e.result_size } in
      if ltb omtu e.msg_size
      then pure (einval, opdu)
      else if ltb (length ipdu) e.header_size
      then pure (einval, krsp)
      else if not (length ipdu == e.header_size + e.hdr_payload_len ipdu)
      then pure (einval, krsp)
      else dispatch sock proto_sock ipdu krsp
