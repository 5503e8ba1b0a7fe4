-- ===== src/Ringbuffer/Fifo.antt =====
-- What a client asks of a ring, and the unbounded FIFO that answers it: the specification.
use distributed_framework.Common.{
  ℕ, Bool, true, false, List, [], ◌∷◌, ◌++◌, take, drop, nat_keys, string_keys,
}

-- The calls of a client, one after the other under the lock.
pub data Op {ℓ} (T : Type ℓ) : Type ℓ where
  pushes : T → Op T
  pops : Op T
  pops_n : ℕ → Op T

-- What a call returns: nothing, an element with `ok`, or a batch with `ok`.
pub data Reply {ℓ} (T : Type ℓ) : Type ℓ where
  done : Reply T
  one : T → Bool → Reply T
  many : List T → Bool → Reply T

module _ {ℓ} {T : Type ℓ} (z : T) where
  -- The queue after a call, oldest first, and the reply.
  abbrev pub fifo_step : List T → Op T → List T × Reply T
  fifo_step q (pushes x) = (q ++ x ∷ [], done)
  fifo_step [] pops = ([], one z false)
  fifo_step (x ∷ q) pops = (q, one x true)
  fifo_step [] (pops_n n) = ([], many [] false)
  fifo_step (x ∷ q) (pops_n n) = (drop n (x ∷ q), many (take n (x ∷ q)) true)

  abbrev pub fifo_run : List T → List (Op T) → List (Reply T)
  fifo_run q [] = []
  fifo_run q (o ∷ ops) = (fifo_step q o).1 ∷ fifo_run (fifo_step q o).0 ops
