-- ===== src/Msg/Hoare.antt =====
-- Calls of src/msg.c that change nothing but the world outside.
use knot_service_source.Common.{◌≡◌, ◌∙◌}
use knot_service_source.Common.Monad.{◌>>=◌}
use knot_service_source.Common.Hoare.{Holds, Holds->>=, Holds-weaken}
use knot_service_source.Env.{Env}
use knot_service_source.Msg.State.{State, Action}

module _ (e : Env) where
  -- Nothing but the world outside has changed.
  abbrev pub OnlyWorld : State e → State e → Type 0
  OnlyWorld s s' = s' ≡ record s { world = s'.world }

  -- The call changes nothing but the world outside, and frees nothing.
  abbrev pub IsQuiet : {A : Type 0} → Action e A → Type 0
  IsQuiet m = (s : State e) → Holds (λ _ s'. OnlyWorld s s') (m s)

  OnlyWorld-trans : (s t u : State e) → OnlyWorld s t → OnlyWorld t u → OnlyWorld s u
  OnlyWorld-trans s t u p q = q ∙ λ i. record (p i) { world = u.world }

  pub IsQuiet->>= :
      {A B : Type 0} (m : Action e A) (f : A → Action e B)
      → IsQuiet m
      → ((a : A) → IsQuiet (f a))
      → IsQuiet (m >>= f)
  IsQuiet->>= m f hm hf s =
      Holds->>= (λ _ s'. OnlyWorld s s') (λ _ s'. OnlyWorld s s') m f s (hm s)
        λ a s' q. Holds-weaken _ _ _ (hf a s') λ b u r. OnlyWorld-trans s s' u q r
