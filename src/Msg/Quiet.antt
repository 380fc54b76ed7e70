-- ===== src/Msg/Quiet.antt =====
-- src/msg.c: the requests to the cloud, and the service's own state.
use knot_service_source.Common.{
  ℕ, ℤ, refl, Bool, Option, none, some, inl, inr, String, arith, Option-cases, Bool-cases, is_neg,
}
use knot_service_source.Common.Queue.{Queue}
use knot_service_source.Env.{Env, Response}
use knot_service_source.Env.Messages.{Bytes, MsgSchema}
use knot_service_source.Common.Hoare.{Holds}
use knot_service_source.Msg.Hoare.{IsQuiet}
use knot_service_source.Msg.Parse.{parse_device_info}
use knot_service_source.Msg.Cloud.{
  proto_mknode, proto_signin, proto_rmnode, proto_schema, proto_data, mknode_response,
  check_credentials, create_device_object, create_data_object,
}
use knot_service_source.Msg.Data.{fetched, send_back, update_device_getdata, update_device_setdata}

module _ (e : Env) where
  pub proto_rmnode-IsQuiet : (sock : ℕ) (u t : Bytes) → IsQuiet e (proto_rmnode e sock u t)
  unfolding Holds proto_rmnode
  proto_rmnode-IsQuiet sock u t s = refl

  pub proto_signin-IsQuiet :
      (want : Bool) (sock : ℕ) (u t : Bytes) → IsQuiet e (proto_signin e want sock u t)
  unfolding Holds proto_signin
  proto_signin-IsQuiet want sock u t s = refl

  pub proto_schema-IsQuiet :
      (sock : ℕ) (u t : Bytes) (q : Queue MsgSchema) → IsQuiet e (proto_schema e sock u t q)
  unfolding Holds proto_schema
  proto_schema-IsQuiet sock u t q s = refl

  check_credentials-IsQuiet : (r : Response × Response) → IsQuiet e (check_credentials e r)
  unfolding Holds check_credentials
  check_credentials-IsQuiet (none, token) s = tt
  check_credentials-IsQuiet (some u, none) s = tt
  check_credentials-IsQuiet (some u, some t) s = refl

  mknode_response-IsQuiet : (r : ℤ × Response) → IsQuiet e (mknode_response e r)
  unfolding Holds mknode_response
  mknode_response-IsQuiet (err, response) = elim (Bool-cases (is_neg err)) [
    | inl h ↦ rw (h, mknode_response) (λ s. refl)
    | inr h ↦ elim (Option-cases (parse_device_info e response)) [
      | inl p ↦ rw (h, p, mknode_response) (λ s. refl)
      | inr (c, p) ↦ rw (h, p, mknode_response) (check_credentials-IsQuiet c)
    ]
  ]

  pub proto_mknode-IsQuiet :
      (sock : ℕ) (name : Bytes) (id : ℕ) (owner : Bytes)
      → IsQuiet e (proto_mknode e sock name id owner)
  unfolding Holds proto_mknode
  proto_mknode-IsQuiet sock name id owner =
      elim (Option-cases (create_device_object e name id owner)) [
        | inl h ↦ rw (h, proto_mknode) (λ s. refl)
        | inr (d, h) ↦ rw (h, proto_mknode) (λ s. mknode_response-IsQuiet _ _)
      ]

  pub proto_data-IsQuiet :
      (sock : ℕ) (u t : Bytes) (id kind : ℕ) (v : e.Val)
      → IsQuiet e (proto_data e sock u t id kind v)
  unfolding Holds proto_data
  proto_data-IsQuiet sock u t id kind v = elim (Option-cases (create_data_object e id kind v)) [
    | inl h ↦ rw (h, proto_data) (λ s. refl)
    | inr (d, h) ↦ rw (h, proto_data) (λ s. refl)
  ]

  send_back-IsQuiet :
      (key : String) (sock : ℕ) (u t : Bytes) (id : ℕ) (json : Response)
      (value : Option (Option e.Json))
      → IsQuiet e (send_back e key sock u t id json value)
  unfolding Holds send_back
  send_back-IsQuiet key sock u t id json none s = refl
  send_back-IsQuiet key sock u t id json (some none) s = refl
  send_back-IsQuiet key sock u t id json (some (some array)) s = ground arith

  fetched-IsQuiet :
      (key : String) (sock : ℕ) (u t : Bytes) (id : ℕ) (r : ℤ × Response)
      → IsQuiet e (fetched e key sock u t id r)
  unfolding Holds fetched
  fetched-IsQuiet key sock u t id (err, json) = elim (Bool-cases (is_neg err)) [
    | inl h ↦ rw (h, fetched) (λ s. tt)
    | inr h ↦ elim (Option-cases (e.tokener_parse json)) [
      | inl p ↦ rw (h, p, fetched) (λ s. tt)
      | inr (c, p) ↦ rw (h, p, fetched) (send_back-IsQuiet key sock u t id json _)
    ]
  ]

  pub update_device_getdata-IsQuiet :
      (sock : ℕ) (u t : Bytes) (id : ℕ) → IsQuiet e (update_device_getdata e sock u t id)
  unfolding Holds update_device_getdata
  update_device_getdata-IsQuiet sock u t id s = fetched-IsQuiet _ _ _ _ _ _ _

  pub update_device_setdata-IsQuiet :
      (sock : ℕ) (u t : Bytes) (id : ℕ) → IsQuiet e (update_device_setdata e sock u t id)
  unfolding Holds update_device_setdata
  update_device_setdata-IsQuiet sock u t id s = fetched-IsQuiet _ _ _ _ _ _ _
