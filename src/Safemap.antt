-- ===== src/Safemap.antt =====
-- safemap/safemap.go: a map behind a lock. Each method holds the lock from its first line to its
-- return, so it is one step on the map. `entries` is the field `data`.
pub mod Refine
mod Tests
use distributed_framework.Common.Dict.{
  Dict, lookup, has, insert, delete, Unique, lookup-insert, lookup-delete, insert-Unique,
  delete-Unique, length-insert, length-delete,
}
use distributed_framework.Common.{
  ℕ, ◌+◌, ◌≡◌, Option, none, some, [], foldl, if◌then◌else◌, length, Comparable, ◌==◌, nat_keys,
  string_keys,
}

pub record SafeMap {ℓ κ} (K : Type ℓ) (V : Type κ) : Type (ℓ ⊔ κ) where
  pub entries : Dict K V

module _ {ℓ κ} {K : Type ℓ} {V : Type κ} ⦃e : Comparable K⦄ where
  unfoldable pub new : SafeMap K V
  new = record { entries = [] }

  unfoldable pub set : SafeMap K V → K → V → SafeMap K V
  set s k v = record { entries = insert k v s.entries }

  -- `none` is the zero value with `false`.
  unfoldable pub get : SafeMap K V → K → Option V
  get s k = lookup k s.entries

  unfoldable pub remove : SafeMap K V → K → SafeMap K V
  remove s k = record { entries = delete k s.entries }

  unfoldable pub len : SafeMap K V → ℕ
  len s = length s.entries

  -- `f` is a step on the state that its closure writes to.
  unfoldable pub for_each {μ} : {S : Type μ} → SafeMap K V → (K → V → S → S) → S → S
  for_each s f z = foldl (λ z' kv. f kv.0 kv.1 z') z s.entries

  abbrev pub IsValid : SafeMap K V → Type 0
  IsValid s = Unique s.entries

  -- On a map with distinct keys, a Set is seen by the Gets of its key and of no other; the keys
  -- stay distinct; and the length grows by one exactly when the key is new.
  pub set_lem :
      (s : SafeMap K V) (k j : K) (v : V)
      → IsValid s
      → (get (set s k v) j ≡ (if k == j then some v else get s j))
        × IsValid (set s k v)
        × (len (set s k v) ≡ (if has k s.entries then len s else len s + 1))
  unfolding get set len
  set_lem s k j v u =
      (lookup-insert k j v s.entries, insert-Unique k v s.entries u, length-insert k v s.entries)

  -- On a map with distinct keys, a Delete hides its key and no other; the keys stay distinct; and
  -- the length falls by one exactly when the key was there.
  pub remove_lem :
      (s : SafeMap K V) (k j : K)
      → IsValid s
      → (get (remove s k) j ≡ (if k == j then none else get s j))
        × IsValid (remove s k)
        × (len s ≡ (if has k s.entries then len (remove s k) + 1 else len (remove s k)))
  unfolding get remove len
  remove_lem s k j u =
      (lookup-delete k j s.entries, delete-Unique k s.entries u, length-delete k s.entries u)
