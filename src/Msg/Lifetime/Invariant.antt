-- ===== src/Msg/Lifetime/Invariant.antt =====
-- The invariant of the objects of src/msg.c: a trust is allocated exactly while something points to
-- it, and its reference count is the number of those pointers.
use knot_service_source.Common.{
  ℕ, ◌+◌, ◌≤◌, ◌<◌, ◌≡◌, ◌⊎◌, Option, none, some, List, lookup, count_by, occurs, IsDistinct,
}
use knot_service_source.Env.{Env}
use knot_service_source.Msg.State.{State, Trust, ProtoWatch, Channel}

-- A cell with `n` pointers to it.
abbrev pub Counted : {V : Type 0} → Option (Trust V) → ℕ → Type 0
Counted none n = n ≡ 0
Counted (some t) n = (t.refs ≡ n) × (0 < n)

abbrev pub watch_of : {V : Type 0} → Option (Trust V) → Option ℕ
watch_of none = none
watch_of (some t) = t.proto_watch

abbrev pub target : Option ProtoWatch → Option ℕ
target none = none
target (some w) = some w.trust

-- A node channel of the socket that holds the trust.
abbrev pub HasChannel : List (ℕ × Channel) → ℕ → ℕ → Type 0
HasChannel channels sock a =
    (c : ℕ) × (lookup c channels ≡ some (record { node_sock = sock; trust = a }))

abbrev pub trust_id : ℕ → ℕ
trust_id a = a

abbrev pub channel_trust : Channel → ℕ
channel_trust c = c.trust

abbrev pub watch_trust : ProtoWatch → ℕ
watch_trust w = w.trust

module _ (e : Env) where
  -- The pointers to a trust: from `trust_map`, from node channels, from device watches, and those
  -- that the running code holds, `xs`.
  abbrev pub refs : State e → List ℕ → ℕ → ℕ
  refs s xs a =
      count_by trust_id a s.trust_map
      + count_by channel_trust a s.channels
      + count_by watch_trust a s.watches
      + occurs a xs

-- `skip` is a socket whose channel is still being set up.
pub record Inv (e : Env) (xs : List ℕ) (skip : Option ℕ) (s : State e) : Type 0 where
  pub counted : (a : ℕ) → Counted (s.heap a) (refs e s xs a)
  pub fresh : (a : ℕ) → s.next ≤ a → s.heap a ≡ none
  pub distinct : IsDistinct s.trust_map
  pub watched : (a h : ℕ) → watch_of (s.heap a) ≡ some h → target (lookup h s.watches) ≡ some a
  pub channelled :
      (sock a : ℕ)
      → lookup sock s.trust_map ≡ some a
      → (skip ≡ some sock) ⊎ HasChannel s.channels sock a
  pub new_channel : (k : ℕ) → s.next ≤ k → lookup k s.channels ≡ none
  pub new_watch : (k : ℕ) → s.next ≤ k → lookup k s.watches ≡ none
