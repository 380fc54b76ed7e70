-- ===== src/Session/Driver.antt =====
-- What src/session.c takes from outside: the radio behind `struct node_ops`, the cloud behind
-- `struct proto_ops`, the `on_data` callback that it is given (`msg_process`), and how ELL destroys an
-- `l_io`.
use knot_service_source.Common.{ℕ, ℤ, Bool}
use knot_service_source.Common.Monad.{M}
use knot_service_source.Common.Hoare.{Holds}
use knot_service_source.Env.Messages.{Bytes}

pub record Driver : Type 1 where
  -- Whatever the operations below read and change.
  pub World : Type 0
  -- What `on_data` writes to its output buffer.
  pub Reply : Type 0
  -- The number of bytes that `recv` returned, and the bytes.
  pub recv : ℕ → World → (ℤ × Bytes) × World
  -- The room for the reply is the fourth argument; the length of the reply or `-errno` comes back.
  pub on_data : ℕ → ℕ → Bytes → ℕ → M World (ℤ × Reply)
  pub send : ℕ → Reply → ℕ → World → ℤ × World
  pub connect : World → ℤ × World
  pub close : ℕ → World → World
  -- Whether `l_io_destroy` runs the disconnect handler before the destroy callback.
  pub disconnects : Bool

-- What the operations promise: they keep `Valid`, and `on_data` uses nothing that has been freed.
pub record Lawful (d : Driver) : Type 1 where
  pub Valid : d.World → Type 0
  pub recv-Valid : (fd : ℕ) (w : d.World) → Valid w → Valid (d.recv fd w).1
  pub on_data-Valid :
      (node proto : ℕ) (data_in : Bytes) (room : ℕ) (w : d.World)
      → Valid w
      → Holds (λ _ w'. Valid w') (d.on_data node proto data_in room w)
  pub send-Valid :
      (fd : ℕ) (reply : d.Reply) (n : ℕ) (w : d.World) → Valid w → Valid (d.send fd reply n w).1
  pub connect-Valid : (w : d.World) → Valid w → Valid (d.connect w).1
  pub close-Valid : (fd : ℕ) (w : d.World) → Valid w → Valid (d.close fd w)
