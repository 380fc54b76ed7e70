-- ===== src/Common/Monad.antt =====
-- A call of C code: it changes the state, or runs into undefined behaviour.
use knot_service_source.Common.{Option, none, some}

-- Undefined behaviour: a pointer to freed memory, a NULL pointer or an indeterminate value is used. Told
-- apart from other freed memory are the channel of a device watch and an entry of ELL's queue.
pub data Fault : Type 0 where
  dangling null_pointer uninitialised freed_channel freed_entry : Fault

pub data Result (A : Type 0) : Type 0 where
  ok : A → Result A
  fault : Fault → Result A

-- `S` is the state.
abbrev pub M : Type 0 → Type 0 → Type 0
M S A = S → Result (A × S)

module _ {S : Type 0} where
  abbrev pub pure : {A : Type 0} → A → M S A
  pure a s = ok (a, s)

  abbrev pub fail : {A : Type 0} → Fault → M S A
  fail f s = fault f

  abbrev pub gets : {A : Type 0} → (S → A) → M S A
  gets f s = ok (f s, s)

  abbrev pub modify : (S → S) → M S (Unit {0})
  modify f s = ok (tt, f s)

  infixl 5 ◌>>=◌ ◌>>◌
  abbrev pub ◌>>=◌ : {A B : Type 0} → M S A → (A → M S B) → M S B
  ◌>>=◌ m f s = elim (m s) [ ok (a, s') ↦ f a s' | fault x ↦ fault x ]

  abbrev pub ◌>>◌ : {A B : Type 0} → M S A → M S B → M S B
  m >> k = m >>= λ _. k

  abbrev pub or_fault : {A : Type 0} → Option A → Fault → M S A
  or_fault none f s = fault f
  or_fault (some a) f s = ok (a, s)
