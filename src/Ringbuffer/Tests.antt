-- ===== src/Ringbuffer/Tests.antt =====
-- ringbuffer/ringbuffer.go: runs of the ring on concrete calls.
use distributed_framework.Ringbuffer.{RingBuffer, new}
use distributed_framework.Ringbuffer.Fifo.{Op, pushes, pops, pops_n, fifo_run}
use distributed_framework.Ringbuffer.Inv.{IsValid, new-IsValid}
use distributed_framework.Ringbuffer.Run.{run, run_refines}
use distributed_framework.Ringbuffer.Refine.{contents}
use distributed_framework.Common.{ℕ, ◌≡◌, some, List, [], ◌∷◌, arith, nat_keys, string_keys}

abbrev calls : List (Op ℕ)
calls = pushes 1 ∷ pushes 2 ∷ pushes 3 ∷ pops ∷ pushes 4 ∷ pops_n 2 ∷ pops_n 5 ∷ pops ∷ []

abbrev ring : RingBuffer ℕ
ring = new 0 2

ring-IsValid : IsValid ring
ring-IsValid = new-IsValid 0 2 (omega arith) (omega arith)

run_refines_example : run 0 ring calls ≡ some (fifo_run 0 (contents 0 ring) calls)
unfolding new
run_refines_example =
    run_refines 0 calls ring 20 ring-IsValid (omega arith) (omega arith) (omega arith)
