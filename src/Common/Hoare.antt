-- ===== src/Common/Hoare.antt =====
-- Postconditions of a call. A call may meet an indeterminate value or a NULL pointer, as the code does
-- in places, and may use the freed channel of a watch or a freed entry of a queue; it may never use another
-- object that has been freed.
use mathlib.Core.Path.{◌≡◌, refl, sym, subst}
use mathlib.Core.Logic.{◌≢◌}
use knot_service_source.Common.Monad.{
  Result, ok, fault, dangling, null_pointer, uninitialised, freed_channel, freed_entry, M, ◌>>=◌,
}

module _ {S : Type 0} where
  -- No use of freed memory but for these, and `P` of the result and the state where the call returns.
  unfoldable pub Holds : {A : Type 0} → (A → S → Type 0) → Result (A × S) → Type 0
  Holds P (ok (a, s)) = P a s
  Holds P (fault dangling) = ⊥
  Holds P (fault null_pointer) = Unit
  Holds P (fault uninitialised) = Unit
  Holds P (fault freed_channel) = Unit
  Holds P (fault freed_entry) = Unit

  pub Holds->>= :
      {A B : Type 0} (Q : A → S → Type 0) (P : B → S → Type 0) (m : M S A) (f : A → M S B) (s : S)
      → Holds Q (m s)
      → ((a : A) (s' : S) → Q a s' → Holds P (f a s'))
      → Holds P ((m >>= f) s)
  unfolding Holds
  Holds->>= {A} {B} Q P m f s h k = go (m s) h
    where
      go :
          (r : Result (A × S))
          → Holds Q r
          → Holds P (elim r [ ok (a, s') ↦ f a s' | fault x ↦ fault x ])
      go (ok (a, s')) q = k a s' q
      go (fault dangling) q = q
      go (fault null_pointer) q = tt
      go (fault uninitialised) q = tt
      go (fault freed_channel) q = tt
      go (fault freed_entry) q = tt

  pub Holds-weaken :
      {A : Type 0} (Q P : A → S → Type 0) (r : Result (A × S))
      → Holds Q r
      → ((a : A) (s' : S) → Q a s' → P a s')
      → Holds P r
  unfolding Holds
  Holds-weaken Q P (ok (a, s')) q k = k a s' q
  Holds-weaken Q P (fault dangling) q k = q
  Holds-weaken Q P (fault null_pointer) q k = tt
  Holds-weaken Q P (fault uninitialised) q k = tt
  Holds-weaken Q P (fault freed_channel) q k = tt
  Holds-weaken Q P (fault freed_entry) q k = tt

  -- A call that returns, followed by another.
  pub ok->>= :
      {A B : Type 0} (m : M S A) (f : A → M S B) (a : A) (s s' : S)
      → m s ≡ ok (a, s')
      → (m >>= f) s ≡ f a s'
  ok->>= m f a s s' p = rw (p, ◌>>=◌) refl

  pub Holds-ok->>= :
      {A B : Type 0} (P : B → S → Type 0) (m : M S A) (f : A → M S B) (a : A) (s s' : S)
      → m s ≡ ok (a, s')
      → Holds P (f a s')
      → Holds P ((m >>= f) s)
  Holds-ok->>= P m f a s s' p h = subst (Holds P) (sym (ok->>= m f a s s' p)) h

  pub Holds-not_dangling :
      {A : Type 0} (P : A → S → Type 0) (r : Result (A × S)) → Holds P r → r ≢ fault dangling
  unfolding Holds
  Holds-not_dangling P r h p = subst (Holds P) p h

  pub Holds_ok :
      {A : Type 0} (P : A → S → Type 0) (r : Result (A × S)) (a : A) (s : S)
      → Holds P r
      → r ≡ ok (a, s)
      → P a s
  unfolding Holds
  Holds_ok P r a s h p = subst (Holds P) p h

  -- The call returns, and `P` of the result and the state.
  unfoldable pub Returns : {A : Type 0} → (A → S → Type 0) → Result (A × S) → Type 0
  Returns P (ok (a, s)) = P a s
  Returns P (fault x) = ⊥

  pub Returns->>= :
      {A B : Type 0} (Q : A → S → Type 0) (P : B → S → Type 0) (m : M S A) (f : A → M S B) (s : S)
      → Returns Q (m s)
      → ((a : A) (s' : S) → Q a s' → Returns P (f a s'))
      → Returns P ((m >>= f) s)
  unfolding Returns
  Returns->>= {A} {B} Q P m f s h k = go (m s) h
    where
      go :
          (r : Result (A × S))
          → Returns Q r
          → Returns P (elim r [ ok (a, s') ↦ f a s' | fault x ↦ fault x ])
      go (ok (a, s')) q = k a s' q
      go (fault x) q = q

  pub Returns-ok->>= :
      {A B : Type 0} (P : B → S → Type 0) (m : M S A) (f : A → M S B) (a : A) (s s' : S)
      → m s ≡ ok (a, s')
      → Returns P (f a s')
      → Returns P ((m >>= f) s)
  Returns-ok->>= P m f a s s' p h = subst (Returns P) (sym (ok->>= m f a s s' p)) h

  pub Returns-weaken :
      {A : Type 0} (Q P : A → S → Type 0) (r : Result (A × S))
      → Returns Q r
      → ((a : A) (s' : S) → Q a s' → P a s')
      → Returns P r
  unfolding Returns
  Returns-weaken Q P (ok (a, s')) q k = k a s' q
  Returns-weaken Q P (fault x) q k = q

  pub Returns-Holds :
      {A : Type 0} (P : A → S → Type 0) (r : Result (A × S)) → Returns P r → Holds P r
  unfolding Returns Holds
  Returns-Holds P (ok (a, s')) q = q
  Returns-Holds P (fault x) q = absurd q

  pub Returns-ok :
      {A : Type 0} (P : A → S → Type 0) (r : Result (A × S))
      → Returns P r
      → (a : A) × (s : S) × (r ≡ ok (a, s)) × P a s
  unfolding Returns
  Returns-ok P (ok (a, s')) q = (a, s', refl, q)
  Returns-ok P (fault x) q = absurd q

  pub Returns_run :
      {A : Type 0} (P : A → S → Type 0) (r : Result (A × S)) (a : A) (s : S)
      → Returns P r
      → r ≡ ok (a, s)
      → P a s
  unfolding Returns
  Returns_run P r a s h p = subst (Returns P) p h

  -- `P` of the result and the state, if the call returns.
  unfoldable pub Partly : {A : Type 0} → (A → S → Type 0) → Result (A × S) → Type 0
  Partly P (ok (a, s)) = P a s
  Partly P (fault x) = Unit

  pub Partly_run :
      {A : Type 0} (P : A → S → Type 0) (r : Result (A × S)) (a : A) (s : S)
      → Partly P r
      → r ≡ ok (a, s)
      → P a s
  unfolding Partly
  Partly_run P r a s h p = subst (Partly P) p h
