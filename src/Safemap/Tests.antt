-- ===== src/Safemap/Tests.antt =====
-- safemap/safemap.go: a map of two keys.
use distributed_framework.Safemap.{SafeMap, IsValid}
use distributed_framework.Safemap.Refine.{
  Call, call_set, call_get, call_remove, call_len, run, spec, view, calls_refine,
}
use distributed_framework.Common.Dict.{has}
use distributed_framework.Common.{ℕ, ◌≡◌, refl, List, [], ◌∷◌, nat_keys, string_keys}

abbrev two : SafeMap ℕ ℕ
two = record { entries = (1, 10) ∷ (2, 20) ∷ [] }

two-IsValid : IsValid two
unfolding has
two-IsValid = (refl, (refl, tt))

abbrev calls : List (Call ℕ ℕ)
calls =
    call_set 2 30
    ∷ call_get 2
    ∷ call_set 3 1
    ∷ call_len
    ∷ call_remove 1
    ∷ call_get 1
    ∷ call_len
    ∷ []

calls_refine_example :
    IsValid (run two calls).0
    × (view (run two calls).0 ≡ (spec (view two) calls).0)
    × ((run two calls).1 ≡ (spec (view two) calls).1)
calls_refine_example = calls_refine two calls two-IsValid
