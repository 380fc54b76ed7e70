-- ===== src/Http/Signin.antt =====
-- src/msg.c over src/proto-http.c: what a thing is told of a sign-in.
use knot_service_source.Common.{
  ℕ, ◌≡◌, ◌≢◌, refl, sym, ap, ◌∙◌, inl, inr, pos, is_neg, Bool, true, false, none, some, List, [],
  ◌∷◌, if◌then◌else◌, not, is_some, is_neg, Option-cases,
}
use mathlib.Core.Option.{some-injective}
use knot_service_source.Common.Monad.{ok, ◌>>=◌}
use knot_service_source.Env.Messages.{Bytes}
use knot_service_source.Msg.State.{State}
use knot_service_source.Msg.Cloud.{failed, proto_signin}
use knot_service_source.Http.Curl.{Curl, Transfer}
use knot_service_source.Http.Fetch.{fetch_url, transfer_result}
use knot_service_source.Http.Driver.{Globals, Reply, checked, http_signin}
use knot_service_source.Http.Fetched.{body}
use knot_service_source.Http.Described.{
  StopsOnShortWrite, device_request, transfer-performed, transfer_cases, checked-failed,
  read_device, read_device-ready,
}
use knot_service_source.Http.Cloud.{Others, proto_http, of_response, to_response}

abbrev none_delivered : List (Bytes × Bool) → Bool
none_delivered [] = true
none_delivered (chunk ∷ rest) = false

bad_status :
    (t : Transfer) (n : ℕ)
    → t.response_code ≡ some n
    → n ≢ 200
    → n ≢ 201
    → is_neg (transfer_result t) ≡ true
bad_status t n code p q = elim (transfer_cases t) [
  | inr bad ↦ bad
  | inl (performed, inl r, z) ↦ absurd (p (some-injective _ _ (sym code ∙ r)))
  | inl (performed, inr r, z) ↦ absurd (q (some-injective _ _ (sym code ∙ r)))
]

if_not : {A : Type 0} (b : Bool) (x y : A) → (if not b then x else y) ≡ (if b then y else x)
if_not true x y = refl
if_not false x y = refl

module _ (c : Curl) (g : Globals) where
  -- The transfer of the request of a sign-in in `w`.
  abbrev signin_transfer : ℕ → Bytes → Bytes → c.World → Transfer × c.World
  signin_transfer sock uuid token w =
      c.perform (device_request c g (pos sock) uuid token) (c.easy_init w).1

  -- The reply of a sign-in whose transfer ends with a bad status.
  refused_reply :
      StopsOnShortWrite c
      → (sock : ℕ) (uuid token : Bytes) (size : ℕ) (w : c.World) → (c.easy_init w).0 ≡ true
      → (signin_transfer sock uuid token w).0.performed ≡ true
      → is_neg (transfer_result (signin_transfer sock uuid token w).0) ≡ true
      → http_signin c g (pos sock) uuid token (record { text = none; size = size }) w ≡ (
        transfer_result (signin_transfer sock uuid token w).0,
        body (signin_transfer sock uuid token w).0.chunks,
        (signin_transfer sock uuid token w).1,
      )
  unfolding http_signin fetch_url read_device device_request
  refused_reply stops sock uuid token size w ready performed bad =
      let q = device_request c g (pos sock) uuid token in
      let (t, w') = signin_transfer sock uuid token w in
      read_device-ready c q w (record { text = none; size = size }) ready
      ∙ ap (checked c) (transfer-performed c stops q (c.easy_init w).1 performed)
      ∙ checked-failed c (transfer_result t) (body t.chunks) w' bad

module _ (c : Curl) (g : Globals) (o : Others c) where
  -- A sign-in whose reply is a failure.
  signin-failed :
      (want : Bool) (sock : ℕ) (uuid token : Bytes) (s : State (proto_http c g o)) (r : Reply c)
      → http_signin c g (pos sock) uuid token (of_response (o.stack s.world)) s.world ≡ r
      → is_neg r.0 ≡ true
      → proto_signin (proto_http c g o) want sock uuid token s
        ≡ ok (
          failed (
              if is_some (to_response r.1)
              then o.protocol.credential_unauthorized
              else o.protocol.cloud_failure),
          record s { world = r.2 },
        )
  unfolding proto_signin
  signin-failed want sock uuid token s r e h = elim (Option-cases (to_response r.1)) [
    | inl p ↦ rw (e, ◌>>=◌, p) refl
    | inr (text, p) ↦ rw (e, ◌>>=◌, p, h) refl
  ]

  to_response-body :
      (chunks : List (Bytes × Bool))
      → is_some (to_response (body chunks)) ≡ not (none_delivered chunks)
  to_response-body [] = refl
  to_response-body (chunk ∷ rest) = refl

  -- Where the buffer of `proto_signin`, which it does not initialise, happens to hold a NULL pointer,
  -- there is an easy handle, the transfer ends without an error, and the status is neither 200 nor 201, a
  -- sign-in fails with KNOT_CREDENTIAL_UNAUTHORIZED if the answer has a body, and with
  -- KNOT_CLOUD_FAILURE if it has none, whatever the status is.
  pub signin_status_ignored :
      StopsOnShortWrite c
      → (want : Bool) (sock : ℕ) (uuid token : Bytes) (s : State (proto_http c g o)) (n : ℕ)
      → o.stack s.world ≡ none
      → (c.easy_init s.world).0 ≡ true
      → (signin_transfer c g sock uuid token s.world).0.performed ≡ true
      → (signin_transfer c g sock uuid token s.world).0.response_code ≡ some n
      → n ≢ 200
      → n ≢ 201
      → proto_signin (proto_http c g o) want sock uuid token s
        ≡ ok (
          failed (
              if none_delivered (signin_transfer c g sock uuid token s.world).0.chunks
              then o.protocol.cloud_failure
              else o.protocol.credential_unauthorized),
          record s { world = (signin_transfer c g sock uuid token s.world).1 },
        )
  signin_status_ignored stops want sock uuid token s n cleared ready performed code p q =
      let (t, w') = signin_transfer c g sock uuid token s.world in
      let bad = bad_status t n code p q in
      signin-failed want sock uuid token s (transfer_result t, body t.chunks, w')
        (ap (λ r. http_signin c g (pos sock) uuid token (of_response r) s.world) cleared
          ∙ refused_reply c g stops sock uuid token 0 s.world ready performed bad)
        bad
      ∙ rw
          (
            to_response-body t.chunks,
            if_not (none_delivered t.chunks) o.protocol.credential_unauthorized
                o.protocol.cloud_failure,
          )
          refl
