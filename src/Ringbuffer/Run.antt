-- ===== src/Ringbuffer/Run.antt =====
-- Every run of calls on a valid ring is the run of the FIFO that it holds.
use distributed_framework.Common.{
  ℕ, suc, ◌+◌, ◌*◌, ◌≤◌, ◌<◌, ◌≡◌, refl, ap, ap₂, ◌∙◌, sym, List, [], ◌∷◌, Option, none, some, true,
  false, arith, length, dec_lt, ℕ_discrete, subst, nat_keys, string_keys,
}
use mathlib.Core.Option
use distributed_framework.Ringbuffer.{RingBuffer, int64_limit, push, pop, pop_n, pop_loop}
use distributed_framework.Ringbuffer.Inv.{
  IsValid, popped, pushed, grown, push_free, push_full, pushed-IsValid, grown-IsValid, pop-IsValid,
  pop_n-IsValid,
}
use distributed_framework.Ringbuffer.Refine.{at, contents, contents-pushed, contents-grown}
use distributed_framework.Ringbuffer.Fifo.{
  pushes, pops, pops_n, Op, Reply, done, one, many, fifo_step, fifo_run,
}
use distributed_framework.Ringbuffer.Popped.{
  pop_empty, after_pop, pop_some, after_pop_n, pop_n_some, pop_n_empty, contents_cons,
  contents_none, contents-ne-nil, batch_of, contents-after_pop, pop_n-items, contents-after_pop_n,
}

module _ {ℓ} {T : Type ℓ} (z : T) where
  -- One call of a client: the ring after it, and its reply. `none` is a panic.
  abbrev pub step : RingBuffer T → Op T → Option (RingBuffer T × Reply T)
  step rb (pushes x) = elim (push z rb x) [ none ↦ none | some rb' ↦ some (rb', done) ]
  step rb pops = let (rb', x, ok) = pop z rb in some (rb', one x ok)
  step rb (pops_n n) = let (rb', xs, ok) = pop_n z rb n in some (rb', many xs ok)

  pub run : RingBuffer T → List (Op T) → Option (List (Reply T))
  run rb [] = some []
  run rb (o ∷ ops) = elim (step rb o) [
    | none ↦ none
    | some (rb', r) ↦ Option.map (λ rs. r ∷ rs) (run rb' ops)
  ]

  -- What a call leaves and replies, in terms of the FIFO; `n` bounds the elements still to come.
  record Steps (rb : RingBuffer T) (o : Op T) (n : ℕ) : Type ℓ where
    next : RingBuffer T
    reply : Reply T
    runs : step rb o ≡ some (next, reply)
    valid : IsValid next
    refines : (contents z next, reply) ≡ fifo_step z (contents z rb) o
    room : next.modulus ≤ 2 * n
    fill : next.len ≤ rb.len + 1

  step_push :
      (rb : RingBuffer T) (x : T) (n : ℕ)
      → IsValid rb
      → rb.modulus ≤ 2 * n
      → rb.len + 1 ≤ n
      → 2 * n < int64_limit
      → Steps rb (pushes x) n
  step_push rb x n v m l b = elim (dec_lt (suc rb.len) rb.modulus) [
    | yes free ↦ record {
      next = pushed z rb x;
      reply = done;
      runs = rw (push_free z rb x v free, step);
      valid = pushed-IsValid z rb x v free;
      refines = ap (λ q. (q, done)) (contents-pushed z rb x v free);
      room = m;
      fill = omega arith;
    }
    | no full ↦ record {
      next = grown z rb x;
      reply = done;
      runs = rw (push_full z rb x v (omega arith) (omega arith), step);
      valid = grown-IsValid z rb x v (omega arith) (omega arith);
      refines = ap (λ q. (q, done)) (contents-grown z rb x v (omega arith));
      room = omega arith;
      fill = omega arith;
    }
  ]

  step_pop : (rb : RingBuffer T) (n : ℕ) → IsValid rb → rb.modulus ≤ 2 * n → Steps rb pops n
  step_pop rb n v m = elim (ℕ_discrete rb.len 0) [
    | yes e ↦ record {
      next = rb;
      reply = one z false;
      runs = rw (pop_empty z rb e);
      valid = v;
      refines = rw (contents_none z rb e) refl;
      room = m;
      fill = omega arith;
    }
    | no ne ↦ record {
      next = after_pop z rb;
      reply = one (at z rb.items rb.modulus rb.head 1) true;
      runs = rw (pop_some z rb ne);
      valid = subst (λ r. IsValid r) (ap (λ t. t.0) (pop_some z rb ne)) (pop-IsValid z rb v);
      refines = rw (contents_cons z rb ne) (
          ap (λ q. (q, one (at z rb.items rb.modulus rb.head 1) true))
            (contents-after_pop z rb v ne));
      room = m;
      fill = omega arith;
    }
  ]

  step_pop_n :
      (rb : RingBuffer T) (c n : ℕ) → IsValid rb → rb.modulus ≤ 2 * n → Steps rb (pops_n c) n
  step_pop_n rb c n v m = elim (ℕ_discrete rb.len 0) [
    | yes e ↦ record {
      next = rb;
      reply = many [] false;
      runs = rw (pop_n_empty z rb c e);
      valid = v;
      refines = rw (contents_none z rb e) refl;
      room = m;
      fill = omega arith;
    }
    | no ne ↦ record {
      next = after_pop_n z rb (popped rb c);
      reply = many (pop_loop z rb.head rb.modulus (popped rb c) 0 rb.items).1 true;
      runs = rw (pop_n_some z rb c ne);
      valid =
          subst (λ r. IsValid r) (ap (λ t. t.0) (pop_n_some z rb c ne)) (pop_n-IsValid z rb c v);
      refines =
          ap₂ (λ q xs. (q, many xs true)) (contents-after_pop_n z rb c v) (pop_n-items z rb c v)
          ∙ sym (batch_of z (contents z rb) c (contents-ne-nil z rb ne));
      room = m;
      fill = omega arith;
    }
  ]

  step_lem :
      (rb : RingBuffer T) (o : Op T) (n : ℕ)
      → IsValid rb
      → rb.modulus ≤ 2 * n
      → rb.len + 1 ≤ n
      → 2 * n < int64_limit
      → Steps rb o n
  step_lem rb (pushes x) n v m l b = step_push rb x n v m l b
  step_lem rb pops n v m l b = step_pop rb n v m
  step_lem rb (pops_n c) n v m l b = step_pop_n rb c n v m

  -- Any sequence of Push, Pop and PopN on a valid ring, through wrap-around and growth, runs
  -- without a panic and replies exactly as an unbounded FIFO queue of the ring's contents does, as
  -- long as the doubled capacity stays below the int64 limit.
  pub run_refines :
      (ops : List (Op T)) (rb : RingBuffer T) (n : ℕ)
      → IsValid rb
      → rb.modulus ≤ 2 * n
      → rb.len + length ops ≤ n
      → 2 * n < int64_limit
      → run rb ops ≡ some (fifo_run z (contents z rb) ops)
  unfolding run
  run_refines [] rb n v m l b = refl
  run_refines (o ∷ ops) rb n v m l b =
      let s : Steps rb o n = step_lem rb o n v m (omega arith) b in
      rw (s.runs, run, run_refines ops s.next n s.valid s.room (omega (arith, s.fill)) b)
        (ap₂ (λ r q. some (r ∷ fifo_run z q ops)) (ap (λ t. t.1) s.refines)
          (ap (λ t. t.0) s.refines))
