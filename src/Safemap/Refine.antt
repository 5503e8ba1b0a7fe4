-- ===== src/Safemap/Refine.antt =====
-- safemap/safemap.go: the map is a partial function, whose size is the number of keys with a value.
use distributed_framework.Common.Dict.{lookup, has, lookup-has, has_of_lookup_none}
use distributed_framework.Safemap.{SafeMap, set, get, remove, len, IsValid, set_lem, remove_lem}
use distributed_framework.Common.{
  ℕ, ◌+◌, ◌-◌, ◌≡◌, refl, inl, inr, Bool, true, false, Option, none, some, List, [], ◌∷◌,
  if◌then◌else◌, Option-cases, Comparable, ◌==◌, nat_keys, string_keys, ap, ◌∙◌, arith,
}

pub data Call {ℓ κ} (K : Type ℓ) (V : Type κ) : Type (ℓ ⊔ κ) where
  call_set : K → V → Call K V
  call_get call_remove : K → Call K V
  call_len : Call K V

pub data Answer {κ} (V : Type κ) : Type κ where
  nothing : Answer V
  value : Option V → Answer V
  size : ℕ → Answer V

-- The abstract map: a function, and how many keys it has a value for.
pub record Abstract {ℓ κ} (K : Type ℓ) (V : Type κ) : Type (ℓ ⊔ κ) where
  pub at : K → Option V
  pub count : ℕ

abbrev pub is_some {κ} : {V : Type κ} → Option V → Bool
is_some none = false
is_some (some v) = true

module _ {ℓ κ} {K : Type ℓ} {V : Type κ} ⦃e : Comparable K⦄ where
  unfoldable pub run : SafeMap K V → List (Call K V) → SafeMap K V × List (Answer V)
  run s [] = (s, [])
  run s (call_set k v ∷ cs) = let (t, as') = run (set s k v) cs in (t, nothing ∷ as')
  run s (call_get k ∷ cs) = let (t, as') = run s cs in (t, value (get s k) ∷ as')
  run s (call_remove k ∷ cs) = let (t, as') = run (remove s k) cs in (t, nothing ∷ as')
  run s (call_len ∷ cs) = let (t, as') = run s cs in (t, size (len s) ∷ as')

  unfoldable pub spec : Abstract K V → List (Call K V) → Abstract K V × List (Answer V)
  spec f [] = (f, [])
  spec f (call_set k v ∷ cs) =
      let g : Abstract K V = record {
        at = λ j. if k == j then some v else f.at j;
        count = if is_some (f.at k) then f.count else f.count + 1;
      } in
      let (t, as') = spec g cs in (t, nothing ∷ as')
  spec f (call_get k ∷ cs) = let (t, as') = spec f cs in (t, value (f.at k) ∷ as')
  spec f (call_remove k ∷ cs) =
      let g : Abstract K V = record {
        at = λ j. if k == j then none else f.at j;
        count = if is_some (f.at k) then f.count - 1 else f.count;
      } in
      let (t, as') = spec g cs in (t, nothing ∷ as')
  spec f (call_len ∷ cs) = let (t, as') = spec f cs in (t, size f.count ∷ as')

  abbrev pub view : SafeMap K V → Abstract K V
  view s = record { at = get s; count = len s }

  has-is_some : (s : SafeMap K V) (k : K) → has k s.entries ≡ is_some (get s k)
  unfolding get
  has-is_some s k = elim (Option-cases (lookup k s.entries)) [
    | inl absent ↦ has_of_lookup_none k s.entries absent ∙ rw absent refl
    | inr (v, there) ↦ lookup-has k s.entries v there ∙ rw there refl
  ]

  set-view :
      (s : SafeMap K V) (k : K) (v : V)
      → IsValid s
      → view (set s k v) ≡ (record {
        at = λ j. if k == j then some v else get s j;
        count = if is_some (get s k) then len s else len s + 1;
      })
  set-view s k v u =
      let counted : len (set s k v) ≡ (if is_some (get s k) then len s else len s + 1) =
        (set_lem s k k v u).2 ∙ rw (has-is_some s k) refl in
      λ i. record { at = λ j. (set_lem s k j v u).0 i; count = counted i }

  remove-view :
      (s : SafeMap K V) (k : K)
      → IsValid s
      → view (remove s k) ≡ (record {
        at = λ j. if k == j then none else get s j;
        count = if is_some (get s k) then len s - 1 else len s;
      })
  remove-view s k u =
      let counted : len (remove s k) ≡ (if is_some (get s k) then len s - 1 else len s) =
        ground (arith, (remove_lem s k k u).2, has-is_some s k) in
      λ i. record { at = λ j. (remove_lem s k j u).0 i; count = counted i }

  -- On a map with distinct keys, any sequence of Set, Get, Delete and Len answers as a function
  -- from keys to values with a count of its values does, ends in a map that is the function's
  -- view, and keeps the keys distinct.
  pub calls_refine :
      (s : SafeMap K V) (cs : List (Call K V))
      → IsValid s
      → IsValid (run s cs).0
        × (view (run s cs).0 ≡ (spec (view s) cs).0)
        × ((run s cs).1 ≡ (spec (view s) cs).1)
  unfolding run spec
  calls_refine s [] u = (u, refl, refl)
  calls_refine s (call_set k v ∷ cs) u =
      let (w, h, a) = calls_refine (set s k v) cs (set_lem s k k v u).1 in
      let view_eq = set-view s k v u in
      (
        w,
        h ∙ ap (λ f. (spec f cs).0) view_eq,
        ap (λ l. nothing ∷ l) (a ∙ ap (λ f. (spec f cs).1) view_eq),
      )
  calls_refine s (call_get k ∷ cs) u =
      let (w, h, a) = calls_refine s cs u in (w, h, ap (λ l. value (get s k) ∷ l) a)
  calls_refine s (call_remove k ∷ cs) u =
      let (w, h, a) = calls_refine (remove s k) cs (remove_lem s k k u).1 in
      let view_eq = remove-view s k u in
      (
        w,
        h ∙ ap (λ f. (spec f cs).0) view_eq,
        ap (λ l. nothing ∷ l) (a ∙ ap (λ f. (spec f cs).1) view_eq),
      )
  calls_refine s (call_len ∷ cs) u =
      let (w, h, a) = calls_refine s cs u in (w, h, ap (λ l. size (len s) ∷ l) a)
