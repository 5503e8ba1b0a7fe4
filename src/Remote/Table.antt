-- ===== src/Remote/Table.antt =====
-- remote/stream_writer.go: the tables of a batch, and what their indices stand for.
use distributed_framework.Common.Dict.{
  Dict, lookup, insert, lookup-insert, length-insert, has_of_lookup_none,
}
use distributed_framework.Remote.Intern.{int32, intern}
use distributed_framework.Common.{
  ℕ, ◌+◌, ◌^◌, ◌≤◌, ◌<◌, ◌≡◌, sym, ap, ◌∙◌, inl, inr, none, some, List, [], ◌∷◌, ◌++◌, append-nil,
  arith, Option-cases, length, get_elem?, Comparable, nat_keys, string_keys, ◌%◌, refl,
  mod-eq_of_lt, Bool-cases, length-append, get_elem?-append_left, get_elem?-append_length,
  lt-length_of_get_elem?, ◌==◌, ==_iff, true, append_assoc,
}

abbrev pub Extends {ℓ} : {A : Type ℓ} → List A → List A → Type ℓ
Extends {A = A} xs ys = (zs : List A) × (ys ≡ xs ++ zs)

pub Extends-trans {ℓ} :
    {A : Type ℓ} (xs ys zs : List A) → Extends xs ys → Extends ys zs → Extends xs zs
Extends-trans xs ys zs (us, h) (vs, k) = (us ++ vs, k ∙ ap (λ l. l ++ vs) h ∙ append_assoc xs us vs)

pub get_elem?-Extends {ℓ} :
    {A : Type ℓ} (xs ys : List A) (i : ℕ) {v : A}
    → Extends xs ys
    → get_elem? xs i ≡ some v
    → get_elem? ys i ≡ some v
get_elem?-Extends xs ys i (zs, h) at =
    rw (h) (get_elem?-append_left xs zs i (lt-length_of_get_elem? xs i at) ∙ at)

module _ {K A : Type 0} ⦃e : Comparable K⦄ (key : A → K) (P : A → Type 0) where
  -- Each index of the table is that of a value with the key.
  pub record Good (m : Dict K ℕ) (xs : List A) : Type 0 where
    pub sized : length m ≡ length xs
    pub at :
        (k : K) (i : ℕ)
        → lookup k m ≡ some i
        → (x : A) × (get_elem? xs i ≡ some x) × (key x ≡ k) × P x

  pub empty-Good : Good [] []
  unfolding lookup
  empty-Good = record { sized = refl; at = λ k i h. absurd (none_ne_some h) }
    where
      none_ne_some : {i : ℕ} → none ≡ some i → ⊥
      none_ne_some h = cc

  -- What `intern` gives: a good table that extends the old one, with the value at the index.
  pub record Interned (xs : List A) (x : A) (r : ℕ × Dict K ℕ × List A) : Type 0 where
    pub good : Good r.1 r.2
    pub more : Extends xs r.2
    pub longer : length r.2 ≤ length xs + 1
    pub found : get_elem? r.2 r.0 ≡ some x

  intern-found :
      (x : A) (m : Dict K ℕ) (xs : List A) (i : ℕ)
      → ((x y : A) → P x → P y → key x ≡ key y → x ≡ y)
      → P x
      → Good m xs
      → lookup (key x) m ≡ some i
      → Interned xs x (i, m, xs)
  intern-found x m xs i sep px g h =
      let (y, at, same, py) = g.at (key x) i h in
      record {
        good = g;
        more = ([], sym (append-nil xs));
        longer = omega arith;
        found = at ∙ ap some (sep y x py px same);
      }

  intern-added :
      (x : A) (m : Dict K ℕ) (xs : List A)
      → P x
      → Good m xs
      → length xs < 2 ^ 32
      → lookup (key x) m ≡ none
      → Interned xs x (int32 (length m), insert (key x) (int32 (length m)) m, xs ++ x ∷ [])
  unfolding int32
  intern-added x m xs px g small h = record {
    good = record { sized = grown; at = at' };
    more = (x ∷ [], refl);
    longer = omega (arith, length-append xs (x ∷ []));
    found = rw (index) (get_elem?-append_length xs x);
  }
    where
      index : length m % 2 ^ 32 ≡ length xs
      index = ground (arith, mod-eq_of_lt small, g.sized)

      grown : length (insert (key x) (length m % 2 ^ 32) m) ≡ length (xs ++ x ∷ [])
      grown = ground (
        arith,
        length-insert (key x) (length m % 2 ^ 32) m,
        has_of_lookup_none (key x) m h,
        length-append xs (x ∷ []),
        g.sized,
      )

      position :
          (k : K) (i : ℕ)
          → (key x == k) ≡ true
          → lookup k (insert (key x) (length m % 2 ^ 32) m) ≡ some i
          → i ≡ length xs
      position k i same look = ground (arith, index, lookup-insert (key x) k (length m % 2 ^ 32) m)

      at' :
          (k : K) (i : ℕ)
          → lookup k (insert (key x) (length m % 2 ^ 32) m) ≡ some i
          → (y : A) × (get_elem? (xs ++ x ∷ []) i ≡ some y) × (key y ≡ k) × P y
      at' k i look = elim (Bool-cases (key x == k)) [
        | inl same ↦ (
          x,
          rw (position k i same look) (get_elem?-append_length xs x),
          (==_iff (key x) k).0 same,
          px,
        )
        | inr other ↦
            let (y, at, named, py) =
              g.at k i (ground (arith, lookup-insert (key x) k (length m % 2 ^ 32) m)) in
            (
              y,
              get_elem?-append_left xs (x ∷ []) i (lt-length_of_get_elem? xs i at) ∙ at,
              named,
              py,
            )
      ]

  pub intern_lem :
      (x : A) (m : Dict K ℕ) (xs : List A)
      → ((x y : A) → P x → P y → key x ≡ key y → x ≡ y)
      → P x
      → Good m xs
      → length xs < 2 ^ 32
      → Interned xs x (intern (key x) x m xs)
  unfolding intern
  intern_lem x m xs sep px g small = elim (Option-cases (lookup (key x) m)) [
    | inl absent ↦ rw (intern, absent) (intern-added x m xs px g small absent)
    | inr (i, present) ↦ rw (intern, present) (intern-found x m xs i sep px g present)
  ]

  -- The first value of the list stays the first; where there was none, it is the new one.
  pub intern-head :
      (x : A) (m : Dict K ℕ) (xs : List A)
      → Good m xs
      → get_elem? (intern (key x) x m xs).2 0
        ≡ elim (get_elem? xs 0) [ none ↦ some x | some y ↦ some y ]
  unfolding intern lookup
  intern-head x [] [] g = refl
  intern-head x ((k, i) ∷ m) [] g = absurd (omega (arith, g.sized))
  intern-head x m (y ∷ ys) g = ground arith
