-- ===== src/Cluster/Provider/Laws.antt =====
-- cluster/selfmanaged.go: the provider's members.
use distributed_framework.Common.Dict.{values, has, has-insert}
use distributed_framework.Actor.Pid.{Pid}
use distributed_framework.Cluster.Member.{Member}
use distributed_framework.Cluster.MemberSet.{MemberSet, add, contains, get_by_host, slice}
use distributed_framework.Cluster.MemberSet.Laws.{lists, IsValid, add-IsValid}
use distributed_framework.Cluster.Provider.{
  SelfManaged, send_members, add_missing, add_members, remove_member, receive, member_leave,
  handshake, send_members_to_agent,
}
use distributed_framework.Common.{
  String, ◌≡◌, true, List, [], ◌∷◌, arith, if◌then◌else◌, nat_keys, string_keys, refl, ◌∙◌, inl,
  inr, Bool, false, Option, none, some, foldl, Bool-cases, ◌==◌, ==_iff,
}

pub add_missing_lem :
    (s : MemberSet) (ms : List Member) (id : String)
    → IsValid s
    → IsValid (add_missing s ms)
      × (has id (add_missing s ms).members ≡ (if has id s.members then true else lists ms id))
unfolding add_missing lists add contains
add_missing_lem s [] id v = (v, ground arith)
add_missing_lem s (m ∷ ms) id v =
    let (w, h) = add_missing_lem (if contains s m then s else add s m) ms id one in
    (w, h ∙ ground (arith, ==_iff m.id id, has-insert m.id id m s.members))
  where
    one : IsValid (if contains s m then s else add s m)
    one = elim (Bool-cases (contains s m)) [ inl e ↦ rw (e) v | inr e ↦ rw (e) (add-IsValid s m v) ]

-- From a valid set, a handshake adds the member that it names and no other, keeps every known
-- member and a valid set, and sends the whole new list to the agent and to the sender.
pub handshake_lem :
    (s : SelfManaged) (own : Pid) (sender : Option Pid) (m : Member) (id : String)
    → IsValid s.members
    → (s' : SelfManaged) × (receive s own (handshake sender m)
        ≡ some (
          s',
          send_members (some s.agent_pid) (slice s'.members)
              ∷ send_members sender (slice s'.members)
              ∷ [],
        ))
      × IsValid s'.members
      × (has id s'.members.members ≡ (if has id s.members.members then true else lists (m ∷ []) id))
unfolding receive add_members send_members_to_agent
handshake_lem s own sender m id v =
    let (w, h) = add_missing_lem s.members (m ∷ []) id v in
    (record s { members = add_missing s.members (m ∷ []) }, refl, w, h)

-- Whether a member of the list is on the host.
unfoldable pub has_host : List Member → String → Bool
has_host [] host = false
has_host (m ∷ ms) host = if m.host == host then true else has_host ms host

by_host_from :
    (ms : List Member) (host : String) (found : Option Member)
    → has_host ms host ≡ false
    → foldl (λ found m. if m.host == host then some m else found) found ms ≡ found
unfolding has_host
by_host_from [] host found h = refl
by_host_from (m ∷ ms) host found h =
    by_host_from ms host (if m.host == host then some m else found) (ground arith) ∙ ground arith

-- The report of an unreachable engine on whose host no member is makes the provider panic on a nil
-- member.
pub unknown_leave_panics :
    (s : SelfManaged) (own : Pid) (addr : String)
    → has_host (slice s.members) addr ≡ false
    → receive s own (member_leave addr) ≡ none
unfolding receive remove_member get_by_host slice
unknown_leave_panics s own addr h = rw (by_host_from (values s.members.members) addr none h) refl
