-- ===== src/Ringbuffer.antt =====
-- ringbuffer/ringbuffer.go: the growing ring that every inbox is built on. The lock makes each
-- method one step, so a method is a function from ring to ring. `none` is a run-time panic: a
-- remainder by zero in a ring of size 0, or `make` of more than `int64` can count.
pub mod Fifo
pub mod Inv
pub mod Window
pub mod Refine
pub mod Popped
pub mod Run
mod Tests
use distributed_framework.Common.{
  ℕ, zero, suc, ◌+◌, ◌-◌, ◌*◌, ◌%◌, ◌^◌, Bool, true, false, List, [], ◌∷◌, Option, none, some,
  nat_eq, leb, ltb, if◌then◌else◌, get_or, set, replicate,
}

-- One more than the largest `int64`.
abbrev pub int64_limit : ℕ
int64_limit = 2 ^ 63

-- `buffer[T]`: `head` is the place before the first element, `tail` that of the last.
pub record Buffer {ℓ} (T : Type ℓ) : Type ℓ where
  pub items : List T
  pub head : ℕ
  pub tail : ℕ
  pub modulus : ℕ

pub record RingBuffer {ℓ} (T : Type ℓ) : Type ℓ where
  pub content : Buffer T
  pub open content use *
  pub len : ℕ

-- `zero_value` is Go's `var t T`.
module _ {ℓ} {T : Type ℓ} (zero_value : T) where
  pub new : ℕ → RingBuffer T
  new size = record {
    content = record { items = replicate size zero_value; head = 0; tail = 0; modulus = size };
    len = 0;
  }

  -- The loop of `Push` that copies: `newBuff[i] = items[(tail+i) % mod]` for the `n` places from
  -- `i` on.
  pub copy_from : List T → ℕ → ℕ → ℕ → ℕ → List T → List T
  copy_from items tail m zero i new_buff = new_buff
  copy_from items tail m (suc n) i new_buff =
      copy_from items tail m n (i + 1) (set new_buff i (get_or items ((tail + i) % m) zero_value))

  -- The new content of a full ring; `tail` is already moved on.
  pub grow : Buffer T → Buffer T
  unfolding copy_from
  grow b = record {
    items = copy_from b.items b.tail b.modulus b.modulus 0 (replicate (b.modulus * 2) zero_value);
    head = 0;
    tail = b.modulus;
    modulus = b.modulus * 2;
  }

  pub push : RingBuffer T → T → Option (RingBuffer T)
  push rb item =
      if nat_eq rb.modulus 0
      then none
      else if nat_eq tail rb.head
      then (if leb int64_limit (rb.modulus * 2) then none else some (put (grow moved)))
      else some (put moved)
    where
      tail : ℕ
      tail = (rb.tail + 1) % rb.modulus

      moved : Buffer T
      moved = record rb.content { tail = tail }

      put : Buffer T → RingBuffer T
      put b = record { content = record b { items = set b.items b.tail item }; len = rb.len + 1 }

  pub pop : RingBuffer T → RingBuffer T × T × Bool
  pop rb = if nat_eq rb.len 0 then (rb, zero_value, false) else (
    record {
      content = record rb.content { items = set rb.items head zero_value; head = head };
      len = rb.len - 1;
    },
    get_or rb.items head zero_value,
    true,
  )
    where
      head : ℕ
      head = (rb.head + 1) % rb.modulus

  -- The loop of `PopN`: `n` rounds from `i` on, with the items left in the buffer and those read.
  pub pop_loop : ℕ → ℕ → ℕ → ℕ → List T → List T × List T
  pop_loop head m zero i items = (items, [])
  pop_loop head m (suc n) i items =
      let pos = (head + 1 + i) % m in
      let rest = pop_loop head m n (i + 1) (set items pos zero_value) in
      (rest.0, get_or items pos zero_value ∷ rest.1)

  pub pop_n : RingBuffer T → ℕ → RingBuffer T × List T × Bool
  pop_n rb n = if nat_eq rb.len 0 then (rb, [], false) else (
    record {
      content = record rb.content { items = loop.0; head = (rb.head + count) % rb.modulus };
      len = rb.len - count;
    },
    loop.1,
    true,
  )
    where
      count : ℕ
      count = if leb rb.len n then rb.len else n

      loop : List T × List T
      loop = pop_loop rb.head rb.modulus count 0 rb.items

pub len {ℓ} : {T : Type ℓ} → RingBuffer T → ℕ
len rb = rb.len
