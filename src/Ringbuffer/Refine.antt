-- ===== src/Ringbuffer/Refine.antt =====
-- The elements that a ring holds, and what its loops do to them.
use distributed_framework.Common.{
  ℕ, zero, suc, ◌+◌, ◌-◌, ◌*◌, ◌%◌, ◌≤◌, ◌<◌, ◌≡◌, refl, ap, ap₂, ◌∙◌, sym, List, [], ◌∷◌, ◌++◌,
  arith, length, length-set, set, get_or, get_or-set_self, length-replicate, replicate,
  get_or-set_ne, mod-lt, mod-eq_of_lt, ℕ_discrete,
}
use distributed_framework.Ringbuffer.{RingBuffer, copy_from, pop_loop}
use distributed_framework.Ringbuffer.Inv.{IsValid, length-copy_from, mod-ne, pushed, grown}
use distributed_framework.Ringbuffer.Window.{
  next_suc, next_place, zero_left, seg, seg_ext, seg_push,
}

module _ {ℓ} {T : Type ℓ} (z : T) where
  -- The element `k` places behind `head`.
  abbrev pub at : List T → ℕ → ℕ → ℕ → T
  at items m head k = get_or items ((head + k) % m) z

  -- The elements, oldest first.
  abbrev pub contents : RingBuffer T → List T
  contents rb = seg (at rb.items rb.modulus rb.head) 1 rb.len

  -- A write at one place is not seen at another within one turn.
  at_set :
      (items : List T) (m head j k : ℕ) (x : T)
      → j < k
      → k < j + m
      → at (set items ((head + k) % m) x) m head j ≡ at items m head j
  at_set items m head j k x h l = get_or-set_ne items ((head + k) % m) ((head + j) % m) x z λ e.
      mod-ne m (head + j) (k - j) (omega arith) (omega arith) (ap (λ t. t % m) (omega arith) ∙ e)

  pub at_set_above :
      (items : List T) (m head j k : ℕ) (x : T)
      → k < j
      → j < k + m
      → at (set items ((head + k) % m) x) m head j ≡ at items m head j
  at_set_above items m head j k x h l =
      get_or-set_ne items ((head + k) % m) ((head + j) % m) x z λ e.
        mod-ne m (head + k) (j - k) (omega arith) (omega arith)
          (ap (λ t. t % m) (omega arith) ∙ sym e)

  -- One round of the loop of `PopN` clears a place that later rounds do not read.
  at_step :
      (items : List T) (m head i k : ℕ)
      → suc i < k
      → k < suc i + m
      → at (set items ((head + 1 + i) % m) z) m head k ≡ at items m head k
  at_step items m head i k h l =
      ap (λ t. at (set items (t % m) z) m head k) (next_place head i)
      ∙ at_set_above items m head k (suc i) z h l

  pub contents-pushed :
      (rb : RingBuffer T) (x : T)
      → IsValid rb
      → suc rb.len < rb.modulus
      → contents (pushed z rb x) ≡ contents rb ++ x ∷ []
  contents-pushed rb x v h =
      seg_push (at (set rb.items last x) rb.modulus rb.head) 1 rb.len
      ∙ ap₂ (λ l y. l ++ y ∷ [])
          (seg_ext _ (at rb.items rb.modulus rb.head) 1 rb.len (λ k p q.
            at_set rb.items rb.modulus rb.head k (suc rb.len) x (omega arith) (omega arith)))
          (ap (λ k. get_or (set rb.items last x) ((rb.head + k) % rb.modulus) z) one_more
            ∙ get_or-set_self rb.items last x z
                (omega (arith, mod-lt (rb.head + suc rb.len) v.positive)))
    where
      last : ℕ
      last = (rb.head + suc rb.len) % rb.modulus

      one_more : 1 + rb.len ≡ suc rb.len
      one_more = omega arith

  copy_from_below :
      (items : List T) (t m n i k : ℕ) (nb : List T)
      → k < i
      → get_or (copy_from z items t m n i nb) k z ≡ get_or nb k z
  unfolding copy_from
  copy_from_below items t m zero i k nb h = refl
  copy_from_below items t m (suc n) i k nb h =
      copy_from_below items t m n (i + 1) k _ (omega arith) ∙ get_or-set_ne nb i k _ z (omega arith)

  copy_from_lem :
      (items : List T) (t m n i k : ℕ) (nb : List T)
      → i ≤ k
      → k < i + n
      → i + n ≤ length nb
      → get_or (copy_from z items t m n i nb) k z ≡ get_or items ((t + k) % m) z
  unfolding copy_from
  copy_from_lem items t m zero i k nb h l b = absurd (omega arith)
  copy_from_lem items t m (suc n) i k nb h l b = elim (ℕ_discrete i k) [
    | yes e ↦
        copy_from_below items t m n (i + 1) k _ (omega arith)
        ∙ ap (λ j. get_or (set nb i (get_or items ((t + i) % m) z)) j z) (sym e)
        ∙ get_or-set_self nb i _ z (omega arith)
        ∙ ap (λ j. get_or items ((t + j) % m) z) e
    | no ne ↦
        copy_from_lem items t m n (i + 1) k _ (omega arith) (omega arith)
          (omega (arith, length-set nb i (get_or items ((t + i) % m) z)))
  ]

  pub contents-grown :
      (rb : RingBuffer T) (x : T)
      → IsValid rb
      → suc rb.len ≡ rb.modulus
      → contents (grown z rb x) ≡ contents rb ++ x ∷ []
  contents-grown rb x v h =
      seg_push (at (set copied rb.modulus x) (rb.modulus * 2) 0) 1 rb.len
      ∙ ap₂ (λ l y. l ++ y ∷ []) (seg_ext _ (at rb.items rb.modulus rb.head) 1 rb.len kept)
          (ap (λ k. get_or (set copied rb.modulus x) k z)
              (mod-eq_of_lt {n = 0 + (1 + rb.len)} {m = rb.modulus * 2} (omega arith) ∙ here)
            ∙ get_or-set_self copied rb.modulus x z (omega (arith, size)))
    where
      copied : List T
      copied = copy_from z rb.items rb.head rb.modulus rb.modulus 0 (replicate (rb.modulus * 2) z)

      here : 0 + (1 + rb.len) ≡ rb.modulus
      here = omega arith

      size : length copied ≡ rb.modulus * 2
      size =
          length-copy_from z rb.items rb.head rb.modulus rb.modulus 0 _
          ∙ length-replicate (rb.modulus * 2) z

      kept :
          (k : ℕ)
          → 1 ≤ k
          → k < 1 + rb.len
          → at (set copied rb.modulus x) (rb.modulus * 2) 0 k ≡ at rb.items rb.modulus rb.head k
      kept k p q =
          ap (λ j. get_or (set copied rb.modulus x) j z)
            (mod-eq_of_lt {n = 0 + k} {m = rb.modulus * 2} (omega arith) ∙ zero_left k)
          ∙ get_or-set_ne copied rb.modulus k x z (omega arith)
          ∙ copy_from_lem rb.items rb.head rb.modulus rb.modulus 0 k _ (omega arith) (omega arith)
              (omega (arith, length-replicate (rb.modulus * 2) z))

  -- The loop of `PopN` reads the elements in order,
  pub pop_loop-items :
      (head m n i : ℕ) (items : List T)
      → n ≤ m
      → (pop_loop z head m n i items).1 ≡ seg (at items m head) (suc i) n
  unfolding pop_loop
  pop_loop-items head m zero i items h = refl
  pop_loop-items head m (suc n) i items h =
      ap₂ ◌∷◌ (ap (λ t. get_or items (t % m) z) (next_place head i)) (
        pop_loop-items head m n (i + 1) _ (omega arith)
        ∙ ap (λ t. seg (at (set items ((head + 1 + i) % m) z) m head) (suc t) n) (next_suc i)
        ∙ seg_ext _ (at items m head) (suc (suc i)) n
            λ k p q. at_step items m head i k (omega arith) (omega arith))

  -- and leaves the others where they are.
  pub pop_loop-at :
      (head m n i k : ℕ) (items : List T)
      → i + n < k
      → k < suc i + m
      → at (pop_loop z head m n i items).0 m head k ≡ at items m head k
  unfolding pop_loop
  pop_loop-at head m zero i k items h l = refl
  pop_loop-at head m (suc n) i k items h l =
      pop_loop-at head m n (i + 1) k _ (omega arith) (omega arith)
      ∙ at_step items m head i k (omega arith) (omega arith)
