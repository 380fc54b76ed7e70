-- ===== src/Device/Pairing.antt =====
-- src/device.c and src/proxy.c: what becomes of a client's call of "Pair", and of the radio's property.
use knot_service_source.Common.{
  ℕ, ◌<◌, ◌≡◌, refl, sym, ap, ◌∙◌, Bool, true, false, Option, some, List, [], ◌∷◌, map, lookup,
  occurs, without, if◌then◌else◌, arith, Bool-cases, inl, inr,
}
use knot_service_source.Common.Monad.{ok, pure, ◌>>=◌}
use knot_service_source.Common.Hoare.{Returns, ok->>=}
use knot_service_source.Device.Bus.{Bus, Message, paired_signal, busy_error}
use knot_service_source.Device.Objects.{
  Device, State, Action, same_bool, pair_reply, method_pair, device_set_paired,
}
use knot_service_source.Device.Proxy.{is_watched, paired_text, property_changed}
use knot_service_source.Device.Safety.{Reachable-Inv, waiting_msg}
use knot_service_source.Device.Run.{pair_replied, changed, handle, Reachable}

if-same_bool : (x y z : Bool) → same_bool x y ≡ true → (if z then y else x) ≡ x
if-same_bool true true true p = refl
if-same_bool true true false p = refl
if-same_bool false false true p = refl
if-same_bool false false false p = refl
if-same_bool true false z p = absurd (cc)
if-same_bool false true z p = absurd (cc)

module _ (b : Bus) where
  -- Clients call "Pair" one after the other; what each is answered at once.
  pub call_all : ℕ → List ℕ → Action b (List (Option Message))
  unfolding method_pair
  call_all device [] = pure []
  call_all device (msg ∷ rest) = do
    answer ← method_pair b device msg
    answers ← call_all device rest
    pure (answer ∷ answers)

  method_pair-busy :
      (a m msg : ℕ) (t : Device) (s : State b)
      → s.heap a ≡ some t
      → t.paired ≡ false
      → t.msg ≡ some m
      → method_pair b a msg s ≡ ok (some (busy_error msg), s)
  unfolding method_pair
  method_pair-busy a m msg t s p q r = rw (p, q, r, method_pair, ◌>>=◌) refl

  busy-call_all :
      (a m : ℕ) (t : Device) (s : State b) (calls : List ℕ)
      → s.heap a ≡ some t
      → t.paired ≡ false
      → t.msg ≡ some m
      → call_all a calls s ≡ ok (map (λ msg. some (busy_error msg)) calls, s)
  unfolding call_all method_pair
  busy-call_all a m t s [] p q r = refl
  busy-call_all a m t s (msg ∷ rest) p q r =
      ok->>= (method_pair b a msg) _ (some (busy_error msg)) s s
        (method_pair-busy a m msg t s p q r)
      ∙ ok->>= (call_all a rest) _ (map (λ x. some (busy_error x)) rest) s s
          (busy-call_all a m t s rest p q r)

-- When the radio fails to pair a device that is not paired, every one of any number of calls of "Pair"
-- that follow with no other event in between is answered with the error Busy, and changes nothing:
-- neither the radio nor the first client hears of it.
pub failed_pair :
    (b : Bus) (s : State b) (a : ℕ) (t : Device)
    → Reachable b s
    → s.heap a ≡ some t
    → t.paired ≡ false
    → 0 < occurs a s.pending
    → Returns
        (λ _ s'.
          (calls : List ℕ)
          → call_all b a calls s' ≡ ok (map (λ msg. some (busy_error msg)) calls, s'))
        (handle b (pair_replied a true) s)
unfolding Returns handle pair_reply
failed_pair b s a t r p q h =
    let (m, e) = waiting_msg b s a t (Reachable-Inv b s r) p h in
    rw (p, Returns)
      (λ calls. busy-call_all b a m t (record s { pending = without a s.pending }) calls p q e)

-- When the radio reports a device's property "Paired", the device takes the new value exactly where the
-- signal to the clients was sent; all else of the device stays.
paired_followed :
    (b : Bus) (s : State b) (p a msg : ℕ) (t : Device) (paired : Bool)
    → is_watched b p ≡ true
    → lookup p s.device_list ≡ some (some a)
    → s.heap a ≡ some t
    → b.get_boolean msg ≡ some paired
    → Returns
        (λ _ s'.
          s'.heap a
          ≡ some (record t {
            paired =
                if (b.send (paired_signal t.object paired) s.world).0 then paired else t.paired;
          }))
        (handle b (changed p paired_text msg) s)
unfolding Returns handle property_changed device_set_paired
paired_followed b s p a msg t paired watched found at_a got =
    let (sent, w) = b.send (paired_signal t.object paired) s.world in
    elim (Bool-cases (same_bool t.paired paired)) [
      | inl q ↦
          rw (watched, found, property_changed, got, device_set_paired, Returns, at_a, q)
            (at_a
              ∙ ap (λ x. some (record t { paired = x }))
                  (sym (if-same_bool t.paired paired sent q)))
      | inr q ↦ elim (Bool-cases sent) [
        | inl e ↦
            rw (watched, found, property_changed, got, device_set_paired, Returns, at_a, q, e)
              (rw (e) (ground arith))
        | inr e ↦
            rw (watched, found, property_changed, got, device_set_paired, Returns, at_a, q, e)
              (rw (e) at_a)
      ]
    ]
