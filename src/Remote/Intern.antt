-- ===== src/Remote/Intern.antt =====
-- remote/stream_writer.go: the tables that a batch is encoded with.
use distributed_framework.Common.Dict.{Dict, lookup, insert}
use distributed_framework.Actor.Pid.{Pid, lookup_key}
use distributed_framework.Common.{
  ℕ, ◌%◌, ◌^◌, String, Option, none, some, List, [], ◌∷◌, ◌++◌, length, Comparable, nat_keys,
  string_keys,
}

-- `int32(n)`, as the 32 bits of it.
unfoldable pub int32 : ℕ → ℕ
int32 n = n % 2 ^ 32

module _ {ℓ κ} {K : Type ℓ} {A : Type κ} ⦃e : Comparable K⦄ where
  -- The index of a key in the list `values`; a key that is new gets the size of the map and its
  -- value is appended. The body of `lookupTypeName`, and of `lookupPIDs` past its guard.
  unfoldable pub intern : K → A → Dict K ℕ → List A → ℕ × Dict K ℕ × List A
  unfolding int32
  intern k x m xs = elim (lookup k m) [
    | none ↦ (int32 (length m), insert k (int32 (length m)) m, xs ++ x ∷ [])
    | some i ↦ (i, m, xs)
  ]

-- `hash` is the hash function of `LookupKey`. A PID may be nil.
unfoldable pub lookup_pids :
    (String → ℕ) → Dict ℕ ℕ → Option Pid → List Pid → ℕ × Dict ℕ ℕ × List Pid
unfolding intern lookup_key
lookup_pids hash m none pids = (0, m, pids)
lookup_pids hash m (some pid) pids = intern (lookup_key hash pid) pid m pids

unfoldable pub lookup_type_name :
    Dict String ℕ → String → List String → ℕ × Dict String ℕ × List String
unfolding intern
lookup_type_name m name types = intern name name m types
