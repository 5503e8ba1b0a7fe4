-- ===== src/Cluster/MemberSet/Laws.antt =====
-- The set of a cluster's members.
use distributed_framework.Common.Dict.{
  Dict, has, insert, delete, values, Unique, has-insert, insert-Unique, delete-Unique,
}
use distributed_framework.Cluster.Member.{Member}
use distributed_framework.Cluster.MemberSet.{
  MemberSet, by_id, new_member_set, add, remove, keep, except,
}
use distributed_framework.Common.{
  String, ◌≡◌, refl, ◌∙◌, Bool, true, false, List, [], ◌∷◌, foldl, arith, if◌then◌else◌, ◌==◌,
  nat_keys, string_keys, not, ==_iff,
}

-- Whether an ID is that of a member of the list.
unfoldable pub lists : List Member → String → Bool
lists [] id = false
lists (m ∷ ms) id = if m.id == id then true else lists ms id

-- Each member stands under its own ID, once.
abbrev pub Keyed : Dict String Member → Type 0
Keyed [] = Unit
Keyed ((k, m) ∷ d) = (k ≡ m.id) × Keyed d

insert-Keyed : (m : Member) (d : Dict String Member) → Keyed d → Keyed (insert m.id m d)
unfolding insert
insert-Keyed m [] h = (refl, tt)
insert-Keyed m ((k, w) ∷ d) h = ground (arith, insert-Keyed m d h.1)

delete-Keyed : (id : String) (d : Dict String Member) → Keyed d → Keyed (delete id d)
unfolding delete
delete-Keyed id [] h = tt
delete-Keyed id ((k, w) ∷ d) h = ground (arith, delete-Keyed id d h.1)

pub record IsValid (s : MemberSet) : Type 0 where
  pub unique : Unique s.members
  pub keyed : Keyed s.members

pub add-IsValid : (s : MemberSet) (m : Member) → IsValid s → IsValid (add s m)
unfolding add
add-IsValid s m v = record {
  unique = insert-Unique m.id m s.members v.unique;
  keyed = insert-Keyed m s.members v.keyed;
}

pub remove-IsValid : (s : MemberSet) (m : Member) → IsValid s → IsValid (remove s m)
unfolding remove
remove-IsValid s m v = record {
  unique = delete-Unique m.id s.members v.unique;
  keyed = delete-Keyed m.id s.members v.keyed;
}

-- In a valid set the IDs of the values are the keys.
pub lists-values : (d : Dict String Member) (id : String) → Keyed d → lists (values d) id ≡ has id d
unfolding lists has
lists-values [] id h = refl
lists-values ((k, m) ∷ d) id h = rw (← h.0, lists-values d id h.1)

has-by_id_from :
    (ms : List Member) (d : Dict String Member) (id : String)
    → has id (foldl (λ m member. insert member.id member m) d ms)
      ≡ (if lists ms id then true else has id d)
unfolding lists
has-by_id_from [] d id = refl
has-by_id_from (m ∷ ms) d id =
    has-by_id_from ms (insert m.id m d) id ∙ ground (arith, has-insert m.id id m d)

-- `NewMemberSet` contains the IDs of its arguments.
pub has-by_id : (ms : List Member) (id : String) → has id (by_id ms) ≡ lists ms id
unfolding by_id has
has-by_id ms id = has-by_id_from ms [] id ∙ ground arith

pub lists-keep :
    (p : String → Bool) (ms : List Member) (id : String)
    → lists (keep (λ m. p m.id) ms) id ≡ (if p id then lists ms id else false)
unfolding lists keep
lists-keep p [] id = ground arith
lists-keep p (m ∷ ms) id = ground (arith, ==_iff m.id id, lists-keep p ms id)

-- `Except` keeps the members of the set whose ID is not one of the list's.
pub lists-except :
    (s : MemberSet) (ms : List Member) (id : String)
    → IsValid s
    → lists (except s ms) id ≡ (if lists ms id then false else has id s.members)
unfolding except
lists-except s ms id v =
    lists-keep (λ i. not (has i (by_id ms))) (values s.members) id
    ∙ rw (has-by_id ms id, lists-values s.members id v.keyed) (ground arith)

by_id_from-IsValid :
    (ms : List Member) (s : MemberSet)
    → IsValid s
    → IsValid (record { members = foldl (λ m member. insert member.id member m) s.members ms })
unfolding add
by_id_from-IsValid [] s v = v
by_id_from-IsValid (m ∷ ms) s v = by_id_from-IsValid ms (add s m) (add-IsValid s m v)

pub new_member_set-IsValid : (ms : List Member) → IsValid (new_member_set ms)
unfolding new_member_set by_id
new_member_set-IsValid ms =
    by_id_from-IsValid ms (record { members = [] }) (record { unique = tt; keyed = tt })
