-- ===== src/Cluster/MemberSet.antt =====
-- cluster/member_set.go: the members of a cluster, by their IDs.
pub mod Laws
use distributed_framework.Common.Dict.{Dict, lookup, has, insert, delete, values}
use distributed_framework.Cluster.Member.{Member, has_kind}
use distributed_framework.Common.{
  ℕ, String, Bool, not, Option, none, some, List, [], ◌∷◌, foldl, if◌then◌else◌, length, ◌==◌,
  nat_keys, string_keys,
}

pub record MemberSet : Type 0 where
  pub members : Dict String Member

-- `m[member.ID] = member` for each, the last one of an ID last.
unfoldable pub by_id : List Member → Dict String Member
by_id = foldl (λ m member. insert member.id member m) []

unfoldable pub new_member_set : List Member → MemberSet
unfolding by_id
new_member_set members = record { members = by_id members }

unfoldable pub len : MemberSet → ℕ
len s = length s.members

-- The last member of that host in the order of the range.
unfoldable pub get_by_host : MemberSet → String → Option Member
get_by_host s host =
    foldl (λ found m. if m.host == host then some m else found) none (values s.members)

unfoldable pub add : MemberSet → Member → MemberSet
add s m = record { members = insert m.id m s.members }

unfoldable pub contains : MemberSet → Member → Bool
contains s m = has m.id s.members

unfoldable pub remove : MemberSet → Member → MemberSet
remove s m = record { members = delete m.id s.members }

unfoldable pub remove_by_host : MemberSet → String → MemberSet
unfolding get_by_host remove
remove_by_host s host = elim (get_by_host s host) [ none ↦ s | some m ↦ remove s m ]

unfoldable pub slice : MemberSet → List Member
slice s = values s.members

-- `fun` answers whether to go on, and is a step on the state that its closure writes to.
unfoldable pub for_each_in {ℓ} : {S : Type ℓ} → (Member → S → Bool × S) → List Member → S → S
for_each_in fun [] z = z
for_each_in fun (m ∷ ms) z =
    let (more, z') = fun m z in let rest = for_each_in fun ms z' in if more then rest else z'

unfoldable pub for_each {ℓ} : {S : Type ℓ} → MemberSet → (Member → S → Bool × S) → S → S
unfolding for_each_in
for_each s fun z = for_each_in fun (values s.members) z

-- The members of a list that pass a test, in order.
unfoldable pub keep : (Member → Bool) → List Member → List Member
keep p [] = []
keep p (m ∷ ms) = if p m then m ∷ keep p ms else keep p ms

unfoldable pub except : MemberSet → List Member → List Member
unfolding by_id keep
except s members = keep (λ m. not (has m.id (by_id members))) (values s.members)

unfoldable pub filter_by_kind : MemberSet → String → List Member
unfolding keep has_kind
filter_by_kind s kind = keep (λ m. has_kind m kind) (values s.members)
