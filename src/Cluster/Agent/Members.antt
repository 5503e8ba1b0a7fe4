-- ===== src/Cluster/Agent/Members.antt =====
-- cluster/agent.go: what the member list does to the agent's members.
use distributed_framework.Common.Dict.{has, values, has-insert, has-delete}
use distributed_framework.Cluster.Member.{Member}
use distributed_framework.Cluster.MemberSet.{new_member_set, add, remove, slice, except}
use distributed_framework.Cluster.MemberSet.Laws.{
  lists, IsValid, add-IsValid, remove-IsValid, lists-except, lists-values, has-by_id,
  new_member_set-IsValid,
}
use distributed_framework.Cluster.Agent.{
  Agent, remove_activated, each, member_join, member_leave, handle_members, rebuild_kinds,
  remove_host,
}
use distributed_framework.Actor.Pid.{Pid}
use distributed_framework.Common.{
  String, ◌≡◌, refl, ◌∙◌, Bool, true, false, List, [], ◌∷◌, arith, if◌then◌else◌, ◌==◌, nat_keys,
  string_keys,
}

-- Whether the agent's set holds an ID.
abbrev pub knows : Agent → String → Bool
knows a id = has id a.members.members

remove_host-members :
    (a : Agent) (host : String) (pids : List Pid) → (remove_host a host pids).members ≡ a.members
unfolding remove_host remove_activated
remove_host-members a host [] = refl
remove_host-members a host (p ∷ ps) =
    remove_host-members (if p.address == host then remove_activated a p else a) host ps
    ∙ ground arith

pub member_leave-members :
    (a : Agent) (m : Member) → (member_leave a m).0.members ≡ remove a.members m
unfolding member_leave rebuild_kinds
member_leave-members a m =
    remove_host-members (rebuild_kinds (record a { members = remove a.members m })) m.host
      (values a.activated)

joined-members :
    (a : Agent) (ms : List Member) (id : String)
    → IsValid a.members
    → IsValid (each member_join a ms).0.members
      × (knows (each member_join a ms).0 id ≡ (if lists ms id then true else knows a id))
unfolding each lists member_join add
joined-members a [] id v = (v, refl)
joined-members a (m ∷ ms) id v =
    let (w, h) = joined-members (member_join a m).0 ms id (add-IsValid a.members m v) in
    (w, h ∙ ground (arith, has-insert m.id id m a.members.members))

left-members :
    (a : Agent) (ms : List Member) (id : String)
    → IsValid a.members
    → IsValid (each member_leave a ms).0.members
      × (knows (each member_leave a ms).0 id ≡ (if lists ms id then false else knows a id))
unfolding each lists remove
left-members a [] id v = (v, refl)
left-members a (m ∷ ms) id v =
    let (w, h) =
      left-members (member_leave a m).0 ms id
        (rw (member_leave-members a m) (remove-IsValid a.members m v)) in
    (w, h ∙ rw (member_leave-members a m) (ground (arith, has-delete m.id id a.members.members)))

-- After an agent with a valid member set has handled a member list, its member set is valid and
-- holds exactly the IDs that the list names, whatever it held before.
pub handle_members-exact :
    (a : Agent) (ms : List Member) (id : String)
    → IsValid a.members
    → IsValid (handle_members a ms).0.members × (knows (handle_members a ms).0 id ≡ lists ms id)
unfolding handle_members new_member_set slice
handle_members-exact a ms id v =
    let joined = except (new_member_set ms) (slice a.members) in
    let (w, h) = joined-members a joined id v in
    let (w', h') = left-members (each member_join a joined).0 (except a.members ms) id w in
    (
      w',
      h'
          ∙ ground (
            arith,
            h,
            lists-except (new_member_set ms) (slice a.members) id (new_member_set-IsValid ms),
            lists-except a.members ms id v,
            lists-values a.members.members id v.keyed,
            has-by_id ms id,
          ),
    )
