-- ===== src/Device/Invariant.antt =====
-- The invariant of the devices of src/device.c and src/proxy.c, over each elementary change.
use knot_service_source.Common.{
  ℕ, suc, ◌<◌, ◌≤◌, ◌≡◌, Bool, true, false, Option, none, some, ◌∷◌, lookup, erase, occurs, without,
  IsDistinct, lookup-erase_ne, lookup-erase_self, erase-IsDistinct, arith, occurs-without,
}
use knot_service_source.Device.Bus.{Bus}
use knot_service_source.Device.Objects.{Device, State, write_at}

abbrev pub proxy_of : Option Device → Option ℕ
proxy_of none = none
proxy_of (some t) = some t.proxy

-- A client waits for the answer.
abbrev pub has_msg : Option ℕ → Bool
has_msg none = false
has_msg (some m) = true

abbrev pub waits : Option Device → Bool
waits none = true
waits (some t) = has_msg t.msg

pub record Inv (b : Bus) (s : State b) : Type 0 where
  pub owned : (a p : ℕ) → proxy_of (s.heap a) ≡ some p → lookup p s.device_list ≡ some (some a)
  pub listed : (a p : ℕ) → lookup p s.device_list ≡ some (some a) → proxy_of (s.heap a) ≡ some p
  pub fresh : (a : ℕ) → s.next ≤ a → (s.heap a ≡ none) × (occurs a s.pending ≡ 0)
  pub distinct : IsDistinct s.device_list
  pub once : (a : ℕ) → occurs a s.pending ≤ 1
  pub waiting : (a : ℕ) → 0 < occurs a s.pending → waits (s.heap a) ≡ true

module _ (b : Bus) (s : State b) (v : Inv b s) where
  pub world-Inv : (w : b.World) → Inv b (record s { world = w })
  world-Inv w = record {
    owned = v.owned;
    listed = v.listed;
    fresh = v.fresh;
    distinct = v.distinct;
    once = v.once;
    waiting = v.waiting;
  }

  -- A call is no longer pending.
  pub settled-Inv : (a : ℕ) → Inv b (record s { pending = without a s.pending })
  settled-Inv a = record {
    owned = v.owned;
    listed = v.listed;
    fresh = λ c h.
        ((v.fresh c h).0, ground (arith, v.fresh c h, occurs-without a c s.pending (v.once a)));
    distinct = v.distinct;
    once = λ c. ground (arith, v.once c, occurs-without a c s.pending (v.once a));
    waiting = λ c h. v.waiting c (ground (arith, occurs-without a c s.pending (v.once a)));
  }

  module _ (a : ℕ) (t : Device) (at_a : s.heap a ≡ some t) where
    -- A change that leaves the proxy, and a client that waits.
    pub change-Inv :
        (u : Device)
        → u.proxy ≡ t.proxy
        → (0 < occurs a s.pending → has_msg u.msg ≡ true)
        → Inv b (write_at b a (some u) s)
    change-Inv u same still = record {
      owned = λ c p h. ground (arith, v.owned c p);
      listed = λ c p h. ground (arith, v.listed c p);
      fresh = λ c h. (ground (arith, v.fresh c h), (v.fresh c h).1);
      distinct = v.distinct;
      once = v.once;
      waiting = λ c h. ground (arith, v.waiting c, still);
    }

    -- `method_pair` asks the radio.
    pub ask-Inv :
        (msg : ℕ)
        → t.msg ≡ none
        → Inv b (record (write_at b a (some (record t { msg = some msg })) s) {
          pending = a ∷ s.pending;
        })
    ask-Inv msg idle = record {
      owned = λ c p h. ground (arith, v.owned c p);
      listed = λ c p h. ground (arith, v.listed c p);
      fresh = λ c h. (ground (arith, v.fresh c h), ground (arith, v.fresh c h));
      distinct = v.distinct;
      once = λ c. ground (arith, v.once c, v.waiting c);
      waiting = λ c h. ground (arith, v.waiting c);
    }

    -- The device of a proxy is gone.
    pub gone-Inv :
        (p : ℕ)
        → lookup p s.device_list ≡ some (some a)
        → Inv b (record (write_at b a none s) { device_list = erase p s.device_list })
    gone-Inv p at_p = record {
      owned = λ c q h. ground (arith, v.owned c q, v.listed c p, lookup-erase_ne q p s.device_list);
      listed = λ c q h. ground (
        arith,
        v.listed c q,
        v.listed a p,
        v.listed a q,
        lookup-erase_ne q p s.device_list,
        lookup-erase_self p s.device_list v.distinct,
      );
      fresh = λ c h. (ground (arith, v.fresh c h), (v.fresh c h).1);
      distinct = erase-IsDistinct p s.device_list v.distinct;
      once = v.once;
      waiting = λ c h. ground (arith, v.waiting c);
    }

  -- An entry without a device is gone.
  pub empty-Inv :
      (p : ℕ)
      → lookup p s.device_list ≡ some none
      → Inv b (record s { device_list = erase p s.device_list })
  empty-Inv p at_p = record {
    owned = λ c q h. ground (arith, v.owned c q, lookup-erase_ne q p s.device_list);
    listed = λ c q h. ground (
      arith,
      v.listed c q,
      lookup-erase_ne q p s.device_list,
      lookup-erase_self p s.device_list v.distinct,
    );
    fresh = v.fresh;
    distinct = erase-IsDistinct p s.device_list v.distinct;
    once = v.once;
    waiting = v.waiting;
  }

  -- A new proxy, with its device.
  pub created-Inv :
      (t : Device)
      → lookup t.proxy s.device_list ≡ none
      → Inv b (record (write_at b s.next (some t) s) {
        next = suc s.next;
        device_list = (t.proxy, some s.next) ∷ s.device_list;
      })
  created-Inv t unknown = record {
    owned = λ c q h. ground (arith, v.owned c q);
    listed = λ c q h. ground (arith, v.listed c q, v.fresh s.next);
    fresh = λ c h. (ground (arith, v.fresh c), ground (arith, v.fresh c));
    distinct = (unknown, v.distinct);
    once = v.once;
    waiting = λ c h. ground (arith, v.waiting c, v.fresh s.next);
  }

  -- A new proxy, whose device could not be shown on the bus.
  pub failed-Inv :
      (p : ℕ) (t : Device)
      → lookup p s.device_list ≡ none
      → Inv b (record (write_at b s.next none (write_at b s.next (some t) s)) {
        next = suc s.next;
        device_list = (p, none) ∷ s.device_list;
      })
  failed-Inv p t unknown = record {
    owned = λ c q h. ground (arith, v.owned c q);
    listed = λ c q h. ground (arith, v.listed c q, v.fresh s.next);
    fresh = λ c h. (ground (arith, v.fresh c), ground (arith, v.fresh c));
    distinct = (unknown, v.distinct);
    once = v.once;
    waiting = λ c h. ground (arith, v.waiting c, v.fresh s.next);
  }
