-- ===== src/Cluster/Tests.antt =====
-- cluster: an agent and a provider of a cluster of two nodes.
use distributed_framework.Common.Dict.{lookup, has}
use distributed_framework.Actor.Pid.{Pid, new_pid, equals}
use distributed_framework.Cluster.Member.{agent_pid, contains_kind, Member, has_kind}
use distributed_framework.Cluster.MemberSet.{filter_by_kind, keep, MemberSet, slice, remove}
use distributed_framework.Cluster.MemberSet.Laws.{IsValid, lists}
use distributed_framework.Cluster.Activation.{
  ActivationConfig, SelectMemberFunc, select_random_member,
}
use distributed_framework.Cluster.Agent.{
  Agent, receive, handle_members, handle_activation, member_leave, member_join, activate_kind,
  choose_member, activate_on, announce, handle_activation_request, accepted, has_kind_local,
  contains_name, select_with, bcast, used_id,
}
use distributed_framework.Cluster.Messages.{Answer, failed, members_msg}
use distributed_framework.Cluster.Agent.Members.{knows, handle_members-exact}
use distributed_framework.Cluster.Agent.Activated.{PidsValid, unless_on, member_leave-activated}
use distributed_framework.Cluster.Agent.Spread.{deliver, is_agent_of, spread_lem}
use distributed_framework.Cluster.Agent.Kinds.{any_has_kind, kinds_lem}
use distributed_framework.Cluster.Agent.Activate.{
  AgentValid, receive-AgentValid, asked, activate_lem,
}
use distributed_framework.Common.{
  ◌>>=◌, String, ◌≡◌, refl, true, false, none, some, [], ◌∷◌, if◌then◌else◌, nat_keys, string_keys,
}

abbrev near : Member
near = record { id = "A"; host = "a:1"; region = "default"; kinds = "player" ∷ [] }

abbrev far : Member
far = record { id = "B"; host = "b:1"; region = "default"; kinds = "inventory" ∷ [] }

abbrev player : Pid
player = record { address = "b:1"; id = "player/1" }

abbrev two : MemberSet
two = record { members = ("A", near) ∷ ("B", far) ∷ [] }

two-IsValid : IsValid two
unfolding has
two-IsValid = record { unique = (refl, (refl, tt)); keyed = (refl, (refl, tt)) }

abbrev agent : Agent
agent = record {
  address = "a:1";
  members = two;
  kinds = ("player", true) ∷ [];
  local_kinds = "player" ∷ [];
  activated = ("player/1", player) ∷ [];
}

agent-PidsValid : PidsValid agent.activated
unfolding has
agent-PidsValid = ((refl, tt), (refl, tt))

agent-AgentValid : AgentValid agent
agent-AgentValid = record { members_valid = two-IsValid; pids_valid = agent-PidsValid }

abbrev other : Pid → Agent
other p = record agent { address = p.address; local_kinds = "inventory" ∷ [] }

abbrev drawn : Pid → String
drawn p = "2"

abbrev random : SelectMemberFunc
random = select_random_member 0

handle_members-exact_example :
    IsValid (handle_members agent (far ∷ [])).0.members
    × (knows (handle_members agent (far ∷ [])).0 "A" ≡ lists (far ∷ []) "A")
handle_members-exact_example = handle_members-exact agent (far ∷ []) "A" two-IsValid

member_leave-activated_example :
    lookup "player/1" (member_leave agent far).0.activated
    ≡ (lookup "player/1" agent.activated >>= unless_on "b:1")
member_leave-activated_example = member_leave-activated agent far "player/1" agent-PidsValid

kinds_lem_example :
    (has "player" (member_leave agent far).0.kinds
      ≡ any_has_kind (slice (remove agent.members far)) "player")
    × (has "player" (member_join agent far).0.kinds
        ≡ (if has_kind far "player" then true else has "player" agent.kinds))
kinds_lem_example = kinds_lem agent far "player"

abbrev no_network : Pid → String → String → Answer
no_network p kind id = failed

receive-AgentValid_example :
    AgentValid (receive random no_network "1" agent (members_msg (near ∷ []))).0
receive-AgentValid_example =
    receive-AgentValid random no_network "1" agent (members_msg (near ∷ [])) agent-AgentValid

abbrev config : ActivationConfig
config = record { id = "9"; region = "default"; select_member = none }

abbrev item : Pid
item = record { address = "b:1"; id = "inventory/9" }

activated_item :
    (activate_kind random (asked drawn other) "1" agent "inventory" config).0 ≡ some item
unfolding activate_kind choose_member activate_on announce asked handle_activation_request accepted
    has_kind_local contains_name select_with select_random_member filter_by_kind keep has_kind
    contains_kind has bcast new_pid used_id
activated_item = refl

activate_lem_example :
    (has "inventory/9" agent.activated ≡ false)
    × ((m : Member) × (choose_member random agent "inventory" config ≡ some m)
        × (item ≡ new_pid m.host "inventory/9"))
    × (activate_kind random
          (asked drawn other)
          "1"
          (handle_activation agent item).0
          "inventory"
          config
        ≡ (none, []))
activate_lem_example =
    activate_lem random drawn other "1" agent agent "inventory" config item refl (λ p. refl)
      activated_item

abbrev out : Pid
out = record { address = "c:1"; id = "cluster/C" }

spread_lem_example :
    let after : Pid → Agent =
      deliver (activate_kind random (asked drawn other) "1" agent "inventory" config).1 other in
    (has "inventory/9" (after (agent_pid far)).activated ≡ true)
    × (activate_kind random (asked drawn other) "1" (after (agent_pid far)) "inventory" config
        ≡ (none, []))
    × (has "inventory/9" (after out).activated ≡ has "inventory/9" (other out).activated)
unfolding is_agent_of agent_pid slice new_pid equals
spread_lem_example =
    spread_lem random drawn other "1" agent "inventory" config item other (agent_pid far) out refl
      (λ p. refl) activated_item refl refl
