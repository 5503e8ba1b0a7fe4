-- ===== src/Ringbuffer/Popped.antt =====
-- ringbuffer/ringbuffer.go: what Pop and PopN take, and what they leave.
use distributed_framework.Common.{
  ℕ, suc, ◌+◌, ◌-◌, ◌%◌, ◌≤◌, ◌≡◌, refl, ap, ap₂, ◌∙◌, sym, ◌≢◌, List, [], ◌∷◌, true, false, arith,
  set, get_or, dec_lt, take, drop, nat_keys, string_keys,
}
use distributed_framework.Ringbuffer.{RingBuffer, pop, pop_n, pop_loop}
use distributed_framework.Ringbuffer.Inv.{IsValid, add_mod, popped}
use distributed_framework.Ringbuffer.Window.{seg, seg_shift, take-seg, drop-seg, seg_none}
use distributed_framework.Ringbuffer.Refine.{
  at, contents, pop_loop-items, pop_loop-at, at_set_above,
}
use distributed_framework.Ringbuffer.Fifo.{pops_n, many, fifo_step}

module _ {ℓ} {T : Type ℓ} (z : T) where
  pub pop_empty : (rb : RingBuffer T) → rb.len ≡ 0 → pop z rb ≡ (rb, z, false)
  unfolding pop
  pop_empty rb e = ground arith

  -- What `pop` and `pop_n` return when there is an element.
  abbrev pub after_pop : RingBuffer T → RingBuffer T
  after_pop rb = record {
    content = record rb.content {
      items = set rb.items ((rb.head + 1) % rb.modulus) z;
      head = (rb.head + 1) % rb.modulus;
    };
    len = rb.len - 1;
  }

  pub pop_some :
      (rb : RingBuffer T)
      → rb.len ≢ 0
      → pop z rb ≡ (after_pop rb, at z rb.items rb.modulus rb.head 1, true)
  unfolding pop
  pop_some rb ne = ground arith

  abbrev pub after_pop_n : RingBuffer T → ℕ → RingBuffer T
  after_pop_n rb c = record {
    content = record rb.content {
      items = (pop_loop z rb.head rb.modulus c 0 rb.items).0;
      head = (rb.head + c) % rb.modulus;
    };
    len = rb.len - c;
  }

  pub pop_n_some :
      (rb : RingBuffer T) (n : ℕ)
      → rb.len ≢ 0
      → pop_n z rb n ≡ (
        after_pop_n rb (popped rb n),
        (pop_loop z rb.head rb.modulus (popped rb n) 0 rb.items).1,
        true,
      )
  unfolding pop_n
  pop_n_some rb n ne = ground arith

  pub pop_n_empty : (rb : RingBuffer T) (n : ℕ) → rb.len ≡ 0 → pop_n z rb n ≡ (rb, [], false)
  unfolding pop_n
  pop_n_empty rb n e = ground arith

  -- `seg` matches on `suc`, the code tests `len == 0`.
  pub contents_cons :
      (rb : RingBuffer T)
      → rb.len ≢ 0
      → contents z rb
        ≡ at z rb.items rb.modulus rb.head 1 ∷ seg (at z rb.items rb.modulus rb.head) 2 (rb.len - 1)
  contents_cons rb ne =
      ap (seg (at z rb.items rb.modulus rb.head) 1) {y = suc (rb.len - 1)} (omega arith)

  pub contents_none : (rb : RingBuffer T) → rb.len ≡ 0 → contents z rb ≡ []
  contents_none rb e = seg_none (at z rb.items rb.modulus rb.head) 1 rb.len e

  pub contents-ne-nil : (rb : RingBuffer T) → rb.len ≢ 0 → contents z rb ≢ []
  contents-ne-nil rb ne e = cc (contents_cons rb ne)

  pub batch_of :
      (q : List T) (c : ℕ) → q ≢ [] → fifo_step z q (pops_n c) ≡ (drop c q, many (take c q) true)
  batch_of [] c ne = absurd (ne refl)
  batch_of (x ∷ q) c ne = refl

  pub contents-after_pop :
      (rb : RingBuffer T)
      → IsValid rb
      → rb.len ≢ 0
      → contents z (after_pop rb) ≡ seg (at z rb.items rb.modulus rb.head) 2 (rb.len - 1)
  contents-after_pop rb v ne =
      seg_shift (at z rb.items rb.modulus rb.head) _ 1 1 (rb.len - 1) λ k p q.
        ap (λ t. get_or (set rb.items ((rb.head + 1) % rb.modulus) z) t z)
          (add_mod rb.head 1 k rb.modulus)
        ∙ at_set_above z rb.items rb.modulus rb.head (1 + k) 1 z (omega arith) (omega arith)

  popped_le : (rb : RingBuffer T) (n : ℕ) → popped rb n ≤ rb.len
  popped_le rb n = ground arith

  popped_rest : (rb : RingBuffer T) (n : ℕ) → rb.len - popped rb n ≡ rb.len - n
  popped_rest rb n = ground arith

  popped_place :
      (rb : RingBuffer T) (n : ℕ)
      → seg (at z rb.items rb.modulus rb.head) (popped rb n + 1) (rb.len - popped rb n)
        ≡ seg (at z rb.items rb.modulus rb.head) (n + 1) (rb.len - n)
  popped_place rb n = elim (dec_lt n rb.len) [
    | yes lt ↦ ap₂ (seg (at z rb.items rb.modulus rb.head)) (ground arith) (popped_rest rb n)
    | no ge ↦
        seg_none (at z rb.items rb.modulus rb.head) _ _ (popped_rest rb n ∙ omega arith)
        ∙ sym (seg_none (at z rb.items rb.modulus rb.head) _ _ (omega arith))
  ]

  pub pop_n-items :
      (rb : RingBuffer T) (n : ℕ)
      → IsValid rb
      → (pop_loop z rb.head rb.modulus (popped rb n) 0 rb.items).1 ≡ take n (contents z rb)
  pop_n-items rb n v =
      pop_loop-items z rb.head rb.modulus (popped rb n) 0 rb.items (omega (arith, popped_le rb n))
      ∙ sym (take-seg (at z rb.items rb.modulus rb.head) 1 n rb.len)

  pub contents-after_pop_n :
      (rb : RingBuffer T) (n : ℕ)
      → IsValid rb
      → contents z (after_pop_n rb (popped rb n)) ≡ drop n (contents z rb)
  contents-after_pop_n rb n v =
      seg_shift (at z rb.items rb.modulus rb.head) _ (popped rb n) 1 (rb.len - popped rb n)
        (λ k p q.
          ap (λ t. get_or (pop_loop z rb.head rb.modulus (popped rb n) 0 rb.items).0 t z)
            (add_mod rb.head (popped rb n) k rb.modulus)
          ∙ pop_loop-at z rb.head rb.modulus (popped rb n) 0 (popped rb n + k) rb.items
              (omega arith) (omega arith))
      ∙ popped_place rb n
      ∙ sym (drop-seg (at z rb.items rb.modulus rb.head) 1 n rb.len)
