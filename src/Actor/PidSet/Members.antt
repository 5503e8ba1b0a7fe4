-- ===== src/Actor/PidSet/Members.antt =====
-- What a PIDSet contains, against the set of PIDs as a Boolean function.
use distributed_framework.Common.Dict
use distributed_framework.Common.Dict.{
  has-insert, has-delete, has-lookup, lookup-has, has_of_lookup_none,
}
use distributed_framework.Actor.Pid.{Pid, pid_keys}
use distributed_framework.Actor.PidSet.{
  PidSet, empty_set, index_of, contains, add, remove_at, remove,
}
use mathlib.Core.Path.{fun_ext}
use distributed_framework.Actor.PidSet.Valid.{
  last, last_at, in_range, IsValid, add-IsValid, remove-IsValid, empty_set-IsValid,
}
use distributed_framework.Common.{
  ◌-◌, ◌≡◌, Bool, true, false, List, [], ◌∷◌, ◌++◌, arith, if◌then◌else◌, length, ◌==◌, ==_iff,
  nat_keys, string_keys, ℕ, refl, sym, ap, ◌∙◌, inl, inr, some, Option-cases,
}

-- The calls that change a set.
pub data Change : Type 0 where
  adds removes : Pid → Change

pub change : PidSet → Change → PidSet
change p (adds v) = add p v
change p (removes v) = (remove p v).0

pub changes : PidSet → List Change → PidSet
changes p [] = p
changes p (c ∷ cs) = changes (change p c) cs

-- The specification: a set is its membership test.
abbrev pub member_after : (Pid → Bool) → List Change → Pid → Bool
member_after m [] = m
member_after m (adds v ∷ cs) = member_after (λ w. if v == w then true else m w) cs
member_after m (removes v ∷ cs) = member_after (λ w. if v == w then false else m w) cs

contains-empty_set : (w : Pid) → contains empty_set w ≡ false
unfolding contains empty_set Dict.has
contains-empty_set w = refl

contains-add :
    (p : PidSet) (v w : Pid) → contains (add p v) w ≡ (if v == w then true else contains p w)
unfolding contains add
contains-add p v w =
    ground (arith, has-insert v w (length (p.pids ++ v ∷ []) - 1) p.lookup, ==_iff v w)

contains-remove_at :
    (p : PidSet) (v w : Pid) (i : ℕ)
    → IsValid p
    → Dict.lookup v p.lookup ≡ some i
    → contains (remove_at p v i) w ≡ (if v == w then false else contains p w)
unfolding contains remove_at
contains-remove_at p v w i valid at = ground (
  arith,
  has-insert (last p v i valid at) w i (Dict.delete v p.lookup),
  has-delete v w p.lookup,
  ==_iff v w,
  ==_iff (last p v i valid at) w,
  last_at p v i valid at,
  in_range p v i valid at,
  valid.indexed (last p v i valid at) (length p.pids - 1) (last_at p v i valid at),
  lookup-has (last p v i valid at) p.lookup (length p.pids - 1),
)

contains-remove :
    (p : PidSet) (v w : Pid)
    → IsValid p
    → contains (remove p v).0 w ≡ (if v == w then false else contains p w)
unfolding contains remove index_of
contains-remove p v w valid = elim (Option-cases (Dict.lookup v p.lookup)) [
  | inl e ↦ rw (e, remove) (ground (arith, ==_iff v w, has_of_lookup_none v p.lookup e))
  | inr (i, e) ↦ rw (e, remove) (contains-remove_at p v w i valid e)
]

-- `Remove` tells whether the element was there.
remove_found : (p : PidSet) (v : Pid) → (remove p v).1 ≡ contains p v
unfolding contains remove index_of
remove_found p v = elim (Option-cases (Dict.lookup v p.lookup)) [
  | inl e ↦ rw (e, remove) (sym (has_of_lookup_none v p.lookup e))
  | inr (i, e) ↦ rw (e, remove) (sym (lookup-has v p.lookup i e))
]

changes-IsValid : (p : PidSet) (cs : List Change) → IsValid p → IsValid (changes p cs)
unfolding changes change
changes-IsValid p [] valid = valid
changes-IsValid p (adds v ∷ cs) valid = changes-IsValid (add p v) cs (add-IsValid p v valid)
changes-IsValid p (removes v ∷ cs) valid =
    changes-IsValid (remove p v).0 cs (remove-IsValid p v valid)

changes-member :
    (p : PidSet) (cs : List Change) (w : Pid)
    → IsValid p
    → contains (changes p cs) w ≡ member_after (contains p) cs w
unfolding changes change
changes-member p [] w valid = refl
changes-member p (adds v ∷ cs) w valid =
    changes-member (add p v) cs w (add-IsValid p v valid)
    ∙ ap (λ m. member_after m cs w) (fun_ext (contains-add p v))
changes-member p (removes v ∷ cs) w valid =
    changes-member (remove p v).0 cs w (remove-IsValid p v valid)
    ∙ ap (λ m. member_after m cs w) (fun_ext (λ u. contains-remove p v u valid))

-- After any calls of Add and Remove on an empty PID set, its slice and its index map agree, it
-- contains exactly the PIDs that the calls leave, and Remove reports whether its argument was
-- contained.
pub changes_lem :
    (cs : List Change) (w : Pid)
    → let p = changes empty_set cs in
      IsValid p × (contains p w ≡ member_after (λ v. false) cs w) × ((remove p w).1 ≡ contains p w)
changes_lem cs w = (
  changes-IsValid empty_set cs empty_set-IsValid,
  changes-member empty_set cs w empty_set-IsValid
      ∙ ap (λ m. member_after m cs w) (fun_ext contains-empty_set),
  remove_found (changes empty_set cs) w,
)
