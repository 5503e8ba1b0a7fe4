-- ===== src/Actor/PidSet/Valid.antt =====
-- The slice and the map of a PIDSet tell of the same elements, each at its index.
use distributed_framework.Common.Dict
use distributed_framework.Common.Dict.{lookup-insert, lookup-delete, has-lookup}
use distributed_framework.Actor.Pid.{Pid, pid_keys}
use distributed_framework.Actor.PidSet.{
  PidSet, empty_set, index_of, contains, add, remove_at, remove, lookup,
}
use distributed_framework.Common.{
  ℕ, ◌≡◌, some, get_elem?, nat_keys, string_keys, zero, suc, ◌-◌, ◌<◌, refl, ◌⊎◌, inl, inr, List,
  [], ◌∷◌, ◌++◌, arith, Bool-cases, length, take, length-append, get_elem?-append_left,
  get_elem?-append_length, lt-length_of_get_elem?, ==_iff, get_elem?-take, none, dec_lt, ltb,
  nat_eq, if◌then◌else◌, Option-cases, get_or, set, ◌==◌, get_elem?-set, lt→ltb, ge→ltb,
  get_elem?-eq-get_or,
}

pub record IsValid (p : PidSet) : Type 0 where
  pub found : (v : Pid) (i : ℕ) → Dict.lookup v p.lookup ≡ some i → get_elem? p.pids i ≡ some v
  pub indexed : (v : Pid) (i : ℕ) → get_elem? p.pids i ≡ some v → Dict.lookup v p.lookup ≡ some i

pub empty_set-IsValid : IsValid empty_set
unfolding empty_set Dict.lookup
empty_set-IsValid = record { found = λ v i h. cc; indexed = λ v i h. cc }

-- An index that an append finds is an old one, or the new last one.
append_cases :
    (xs : List Pid) (v w : Pid) (i : ℕ)
    → get_elem? (xs ++ v ∷ []) i ≡ some w
    → ((i < length xs) × (get_elem? xs i ≡ some w)) ⊎ ((i ≡ length xs) × (w ≡ v))
append_cases [] v w zero h = inr (refl, cc)
append_cases [] v w (suc i) h = cc
append_cases (x ∷ xs) v w zero h = inl (omega arith, h)
append_cases (x ∷ xs) v w (suc i) h = grind (arith, append_cases xs v w i h)

last_index : (xs : List Pid) (v : Pid) → length (xs ++ v ∷ []) - 1 ≡ length xs
last_index xs v = omega (arith, length-append xs (v ∷ []))

-- An element is added at the end, unless it is there.
pub add-IsValid : (p : PidSet) (v : Pid) → IsValid p → IsValid (add p v)
unfolding add contains
add-IsValid p v valid = elim (Bool-cases (Dict.has v p.lookup)) [
  | inl old ↦ rw old valid
  | inr new ↦
      rw (new, last_index p.pids v)
        (record {
          found = λ w i h. ground (
            arith,
            lookup-insert v w (length p.pids) p.lookup,
            ==_iff v w,
            valid.found w i,
            lt-length_of_get_elem? p.pids i {v = w},
            get_elem?-append_left p.pids (v ∷ []) i,
            get_elem?-append_length p.pids v,
          );
          indexed = λ w i h. ground (
            arith,
            lookup-insert v w (length p.pids) p.lookup,
            ==_iff v w,
            append_cases p.pids v w i h,
            valid.indexed w i,
            has-lookup v p.lookup new,
          );
        })
]

module _ (p : PidSet) (v : Pid) (i : ℕ) (valid : IsValid p)
    (at : Dict.lookup v p.lookup ≡ some i) where
  pub in_range : i < length p.pids
  in_range = lt-length_of_get_elem? p.pids i (valid.found v i at)

  remove_last :
      i ≡ length p.pids - 1
      → IsValid (record { pids = take (length p.pids - 1) p.pids; lookup = Dict.delete v p.lookup })
  remove_last e = record {
    found = λ w j h. ground (
      arith,
      lookup-delete v w p.lookup,
      ==_iff v w,
      get_elem?-take p.pids (length p.pids - 1) j,
      valid.found w j,
      valid.found v i at,
      lt-length_of_get_elem? p.pids j {v = w},
    );
    indexed = λ w j h. ground (
      arith,
      lookup-delete v w p.lookup,
      ==_iff v w,
      get_elem?-take p.pids (length p.pids - 1) j,
      valid.indexed w j,
    );
  }

  abbrev pub last : Pid
  last = get_or p.pids (length p.pids - 1) v

  abbrev swapped : PidSet
  swapped = record {
    pids = take (length p.pids - 1) (set p.pids i last);
    lookup = Dict.insert last i (Dict.delete v p.lookup);
  }

  pub last_at : get_elem? p.pids (length p.pids - 1) ≡ some last
  last_at = get_elem?-eq-get_or p.pids (length p.pids - 1) v (omega (arith, in_range))

  swapped_at :
      (j : ℕ)
      → get_elem? swapped.pids j ≡ (
          if ltb j (length p.pids - 1)
          then (if nat_eq i j then some last else get_elem? p.pids j)
          else none)
  swapped_at j = ground (
    arith,
    get_elem?-take (set p.pids i last) (length p.pids - 1) j,
    get_elem?-set p.pids i j last in_range,
  )

  swapped_lookup :
      (w : Pid)
      → Dict.lookup w swapped.lookup
        ≡ (if last == w then some i else if v == w then none else Dict.lookup w p.lookup)
  swapped_lookup w =
      ground (arith, lookup-insert last w i (Dict.delete v p.lookup), lookup-delete v w p.lookup)

  remove_swap : i < length p.pids - 1 → IsValid swapped
  remove_swap lt = record {
    found = λ w j h. ground (
      arith,
      swapped_at j,
      swapped_lookup w,
      ==_iff v w,
      ==_iff last w,
      last_at,
      valid.found w j,
      valid.found v i at,
      lt-length_of_get_elem? p.pids j {v = w},
    );
    indexed = λ w j h. ground (
      arith,
      swapped_at j,
      swapped_lookup w,
      ==_iff v w,
      ==_iff last w,
      last_at,
      valid.indexed w j,
      valid.indexed last (length p.pids - 1) last_at,
    );
  }

-- The element is taken out, and the last one moved to its place.
pub remove-IsValid : (p : PidSet) (v : Pid) → IsValid p → IsValid (remove p v).0
unfolding remove remove_at index_of
remove-IsValid p v valid = elim (Option-cases (Dict.lookup v p.lookup)) [
  | inl e ↦ rw (e, remove) valid
  | inr (i, e) ↦ rw (e, remove) (remove_at-IsValid i e)
]
  where
    remove_at-IsValid : (i : ℕ) → Dict.lookup v p.lookup ≡ some i → IsValid (remove_at p v i)
    remove_at-IsValid i e = elim (dec_lt i (length p.pids - 1)) [
      | yes lt ↦ rw (lt→ltb i (length p.pids - 1) lt) (remove_swap p v i valid e lt)
      | no ge ↦
          rw (ge→ltb i (length p.pids - 1) ge)
            (remove_last p v i valid e (omega (arith, in_range p v i valid e)))
    ]
