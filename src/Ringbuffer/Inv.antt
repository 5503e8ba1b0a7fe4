-- ===== src/Ringbuffer/Inv.antt =====
-- The representation invariant of the ring, and that the methods keep it.
use distributed_framework.Common.{
  ℕ, zero, suc, ◌+◌, ◌-◌, ◌*◌, ◌%◌, ◌≤◌, ◌<◌, ◌≡◌, ◌≢◌, refl, sym, ap, subst, ◌∙◌, List, none, some,
  arith, length, length-set, length-replicate, set, get_or, replicate, mod-lt, mod-eq_of_lt,
  mod-add-mod, mod-eq-sub-mod, dec_lt, leb, if◌then◌else◌,
}
use distributed_framework.Ringbuffer.{
  RingBuffer, int64_limit, new, copy_from, grow, push, pop, pop_loop, pop_n,
}

pub record IsValid {ℓ} {T : Type ℓ} (rb : RingBuffer T) : Type 0 where
  pub positive : 0 < rb.modulus
  pub small : rb.modulus < int64_limit
  pub storage : length rb.items ≡ rb.modulus
  pub head_in : rb.head < rb.modulus
  pub len_in : rb.len < rb.modulus
  pub tail_at : rb.tail ≡ (rb.head + rb.len) % rb.modulus

-- Places that are moved on twice.
pub add_mod : (h c r m : ℕ) → ((h + c) % m + r) % m ≡ (h + (c + r)) % m
add_mod h c r m = mod-add-mod (h + c) m r ∙ ap (λ k. k % m) (omega arith)

-- A full turn comes back to the start.
pub mod_wrap : (h m : ℕ) → h < m → (h + m) % m ≡ h
mod_wrap h m lt =
    mod-eq-sub-mod {n = h + m} {m = m} (omega arith)
    ∙ ap (λ k. k % m) (omega arith)
    ∙ mod-eq_of_lt lt

-- Fewer than `m` steps round the ring do not come back to the start.
pub mod-ne : (m a d : ℕ) → 0 < d → d < m → (a + d) % m ≢ a % m
mod-ne m a d hd hm e = elim (dec_lt (a % m + d) m) [
  | yes p ↦ omega (arith, mod-add-mod a m d, mod-eq_of_lt p)
  | no p ↦ omega (
    arith,
    mod-add-mod a m d,
    mod-lt a {m = m} (omega arith),
    mod-eq-sub-mod {n = a % m + d} {m = m} (omega arith),
    mod-eq_of_lt {n = a % m + d - m} {m = m} (omega (arith, mod-lt a {m = m} (omega arith))),
  )
]

-- How many elements `pop_n` takes.
abbrev pub popped {ℓ} : {T : Type ℓ} → RingBuffer T → ℕ → ℕ
popped rb n = if leb rb.len n then rb.len else n

module _ {ℓ} {T : Type ℓ} (z : T) where
  pub length-copy_from :
      (items : List T) (t m n i : ℕ) (nb : List T)
      → length (copy_from z items t m n i nb) ≡ length nb
  unfolding copy_from
  length-copy_from items t m zero i nb = refl
  length-copy_from items t m (suc n) i nb = omega (
    arith,
    length-copy_from items t m n (i + 1) (set nb i (get_or items ((t + i) % m) z)),
    length-set nb i (get_or items ((t + i) % m) z),
  )

  pub length-pop_loop :
      (head m n i : ℕ) (items : List T) → length (pop_loop z head m n i items).0 ≡ length items
  unfolding pop_loop
  length-pop_loop head m zero i items = refl
  length-pop_loop head m (suc n) i items = omega (
    arith,
    length-pop_loop head m n (i + 1) (set items ((head + 1 + i) % m) z),
    length-set items ((head + 1 + i) % m) z,
  )

  -- A new ring is valid and empty, if its size is an `int64` and not 0.
  pub new-IsValid : (size : ℕ) → 0 < size → size < int64_limit → IsValid (new z size)
  unfolding new
  new-IsValid size h k = record {
    positive = h;
    small = k;
    storage = length-replicate size z;
    head_in = h;
    len_in = h;
    tail_at = ground arith;
  }

  pub pop-IsValid : (rb : RingBuffer T) → IsValid rb → IsValid (pop z rb).0
  unfolding pop
  pop-IsValid rb v = ground (
    arith,
    length-set rb.items ((rb.head + 1) % rb.modulus) z,
    add_mod rb.head 1 (rb.len - 1) rb.modulus,
    mod-lt (rb.head + 1) v.positive,
  )

  pub pop_n-IsValid : (rb : RingBuffer T) (n : ℕ) → IsValid rb → IsValid (pop_n z rb n).0
  unfolding pop_n
  pop_n-IsValid rb n v = ground (
    arith,
    length-pop_loop rb.head rb.modulus (popped rb n) 0 rb.items,
    add_mod rb.head (popped rb n) (rb.len - popped rb n) rb.modulus,
    mod-lt (rb.head + popped rb n) v.positive,
  )

  -- The ring that `push` leaves when there is room, and when there is none.
  abbrev pub pushed : RingBuffer T → T → RingBuffer T
  pushed rb x = record {
    content = record rb.content {
      items = set rb.items ((rb.head + suc rb.len) % rb.modulus) x;
      tail = (rb.head + suc rb.len) % rb.modulus;
    };
    len = rb.len + 1;
  }

  abbrev pub grown : RingBuffer T → T → RingBuffer T
  grown rb x = record {
    content = record {
      items =
          set (copy_from z rb.items rb.head rb.modulus rb.modulus 0 (replicate (rb.modulus * 2) z))
            rb.modulus x;
      head = 0;
      tail = rb.modulus;
      modulus = rb.modulus * 2;
    };
    len = rb.len + 1;
  }

  tail_step :
      (rb : RingBuffer T)
      → IsValid rb
      → (rb.tail + 1) % rb.modulus ≡ (rb.head + suc rb.len) % rb.modulus
  tail_step rb v =
      rw v.tail_at
        (add_mod rb.head rb.len 1 rb.modulus ∙ ap (λ k. (rb.head + k) % rb.modulus) (omega arith))

  tail_free :
      (rb : RingBuffer T)
      → IsValid rb
      → suc rb.len < rb.modulus
      → (rb.tail + 1) % rb.modulus ≢ rb.head
  tail_free rb v h e =
      mod-ne rb.modulus rb.head (suc rb.len) (omega arith) h
        (sym (tail_step rb v) ∙ e ∙ sym (mod-eq_of_lt v.head_in))

  tail_full :
      (rb : RingBuffer T)
      → IsValid rb
      → suc rb.len ≡ rb.modulus
      → (rb.tail + 1) % rb.modulus ≡ rb.head
  tail_full rb v h = tail_step rb v ∙ rw h (mod_wrap rb.head rb.modulus v.head_in)

  pub push_free :
      (rb : RingBuffer T) (x : T)
      → IsValid rb
      → suc rb.len < rb.modulus
      → push z rb x ≡ some (pushed rb x)
  unfolding push
  push_free rb x v h = ground (arith, tail_step rb v, tail_free rb v h)

  pub push_full :
      (rb : RingBuffer T) (x : T)
      → IsValid rb
      → suc rb.len ≡ rb.modulus
      → rb.modulus * 2 < int64_limit
      → push z rb x ≡ some (grown rb x)
  unfolding push grow
  push_full rb x v h k = ground (arith, tail_full rb v h)

  -- `make` is asked for more elements than `int64` can count.
  pub push_overflow :
      (rb : RingBuffer T) (x : T)
      → IsValid rb
      → suc rb.len ≡ rb.modulus
      → int64_limit ≤ rb.modulus * 2
      → push z rb x ≡ none
  unfolding push grow
  push_overflow rb x v h k = ground (arith, tail_full rb v h)

  pub pushed-IsValid :
      (rb : RingBuffer T) (x : T) → IsValid rb → suc rb.len < rb.modulus → IsValid (pushed rb x)
  pushed-IsValid rb x v h = record {
    positive = v.positive;
    small = v.small;
    storage = length-set rb.items _ x ∙ v.storage;
    head_in = v.head_in;
    len_in = omega arith;
    tail_at = ap (λ k. (rb.head + k) % rb.modulus) (omega arith);
  }

  pub grown-IsValid :
      (rb : RingBuffer T) (x : T)
      → IsValid rb
      → suc rb.len ≡ rb.modulus
      → rb.modulus * 2 < int64_limit
      → IsValid (grown rb x)
  grown-IsValid rb x v h k = record {
    positive = omega arith;
    small = k;
    storage =
        length-set _ rb.modulus x
        ∙ length-copy_from rb.items rb.head rb.modulus rb.modulus 0 _
        ∙ length-replicate (rb.modulus * 2) z;
    head_in = omega arith;
    len_in = omega arith;
    tail_at = sym (mod-eq_of_lt (omega arith) ∙ omega arith);
  }

  -- What `push` returns is valid.
  pub push-IsValid :
      (rb rb' : RingBuffer T) (x : T) → IsValid rb → push z rb x ≡ some rb' → IsValid rb'
  push-IsValid rb rb' x v e = elim (dec_lt (suc rb.len) rb.modulus) [
    | yes free ↦
        let q : pushed rb x ≡ rb' = cc (push_free rb x v free) in
        subst (λ r. IsValid r) q (pushed-IsValid rb x v free)
    | no full ↦ elim (dec_lt (rb.modulus * 2) int64_limit) [
      | yes fits ↦
          let q : grown rb x ≡ rb' = cc (push_full rb x v (omega arith) fits) in
          subst (λ r. IsValid r) q (grown-IsValid rb x v (omega arith) fits)
      | no over ↦ cc (push_overflow rb x v (omega arith) (omega arith))
    ]
  ]
