-- ===== src/Cluster/Agent.antt =====
-- cluster/agent.go: the actor that keeps a node's view of the cluster. A handler returns the new
-- agent and what it asks of the engine, in order. The messages carry PIDs that are not nil.
pub mod Members
pub mod Activated
pub mod Kinds
pub mod Activate
pub mod Spread
use Prim.Native.String.{◌++◌ as str_append, slice as str_slice, find as str_find, len as str_len}
use distributed_framework.Common.Dict.{Dict, lookup, has, insert, delete, keys, values}
use distributed_framework.Actor.Pid.{Pid, new_pid}
use distributed_framework.Cluster.Member.{Member, agent_pid}
use distributed_framework.Cluster.MemberSet.{
  MemberSet, new_member_set, add, remove, slice, except, filter_by_kind,
}
use distributed_framework.Cluster.Messages.{
  Wire, actor_topology, activation, deactivation, ClusterEvent, member_join_event,
  member_leave_event, activation_event, deactivation_event, ActivationResponse, Reply, pid_reply,
  pids_reply, members_reply, kinds_reply, activation_reply, Effect, send, broadcast, respond,
  poison, spawn, Answer, failed, other_type, answered, Request, started_msg, stopped_msg,
  get_members, get_kinds, actor_topology_msg, members_msg, activation_msg, deactivation_msg,
  deactivate, activate, activation_request, get_active,
}
use distributed_framework.Cluster.Activation.{ActivationConfig, ActivationDetails, SelectMemberFunc}
use distributed_framework.Common.{
  ◌>>=◌, String, Bool, true, false, Option, List, [], ◌∷◌, ◌++◌, map, if◌then◌else◌, ◌==◌, nat_keys,
  string_keys, none, some, ltb, nat_eq,
}

-- `kinds` has the value `true` everywhere. Of `localKinds` only the names are read, and the
-- producer goes to `spawn` with the name.
pub record Agent : Type 0 where
  pub address : String
  pub members : MemberSet
  pub kinds : Dict String Bool
  pub local_kinds : List String
  pub activated : Dict String Pid

unfoldable pub add_activated : Agent → Pid → Agent
add_activated a pid =
    if has pid.id a.activated then a else record a { activated = insert pid.id pid a.activated }

unfoldable pub remove_activated : Agent → Pid → Agent
remove_activated a pid = record a { activated = delete pid.id a.activated }

unfoldable pub contains_name : List String → String → Bool
contains_name [] name = false
contains_name (k ∷ ks) name = if k == name then true else contains_name ks name

unfoldable pub has_kind_local : Agent → String → Bool
unfolding contains_name
has_kind_local a name = contains_name a.local_kinds name

-- `if _, ok := a.kinds[kind]; !ok { a.kinds[kind] = true }` for each kind.
unfoldable pub add_kinds : Dict String Bool → List String → Dict String Bool
add_kinds known [] = known
add_kinds known (k ∷ ks) = add_kinds (if has k known then known else insert k true known) ks

unfoldable pub kinds_of : Dict String Bool → List Member → Dict String Bool
unfolding add_kinds
kinds_of known [] = known
kinds_of known (m ∷ ms) = kinds_of (add_kinds known m.kinds) ms

unfoldable pub rebuild_kinds : Agent → Agent
unfolding kinds_of
rebuild_kinds a = record a { kinds = kinds_of [] (slice a.members) }

-- `bcast`: the message to every member's agent.
unfoldable pub bcast : Agent → Wire → List Effect
bcast a msg = map (λ m. send (agent_pid m) msg) (slice a.members)

unfoldable pub handle_actor_topology : Agent → List Pid → Agent
unfolding add_activated
handle_actor_topology a [] = a
handle_actor_topology a (pid ∷ pids) = handle_actor_topology (add_activated a pid) pids

unfoldable pub handle_deactivation : Agent → Pid → Agent × List Effect
unfolding remove_activated
handle_deactivation a pid =
    (remove_activated a pid, poison pid ∷ broadcast (deactivation_event pid) ∷ [])

unfoldable pub handle_activation : Agent → Pid → Agent × List Effect
unfolding add_activated
handle_activation a pid = (add_activated a pid, broadcast (activation_event pid) ∷ [])

unfoldable pub member_join : Agent → Member → Agent × List Effect
unfolding add_kinds
member_join a m = (
  record a { members = add a.members m; kinds = add_kinds a.kinds m.kinds },
  topology a.activated ++ broadcast (member_join_event m) ∷ [],
)
  where
    topology : Dict String Pid → List Effect
    topology [] = []
    topology (p ∷ ps) = send (agent_pid m) (actor_topology (values (p ∷ ps))) ∷ []

-- The range over `activated` deletes from the map that it walks: each PID of the host that is left
-- goes. The list is the map as it was when the range began.
unfoldable pub remove_host : Agent → String → List Pid → Agent
unfolding remove_activated
remove_host a host [] = a
remove_host a host (pid ∷ pids) =
    remove_host (if pid.address == host then remove_activated a pid else a) host pids

unfoldable pub member_leave : Agent → Member → Agent × List Effect
unfolding rebuild_kinds remove_host
member_leave a m =
    let a1 : Agent = rebuild_kinds (record a { members = remove a.members m }) in
    (remove_host a1 m.host (values a1.activated), broadcast (member_leave_event m) ∷ [])

unfoldable pub each :
    (Agent → Member → Agent × List Effect) → Agent → List Member → Agent × List Effect
each f a [] = (a, [])
each f a (m ∷ ms) = let (a1, es) = f a m in let (a2, es') = each f a1 ms in (a2, es ++ es')

unfoldable pub handle_members : Agent → List Member → Agent × List Effect
unfolding each member_join member_leave
handle_members a members =
    let joined : List Member = except (new_member_set members) (slice a.members) in
    let left : List Member = except a.members members in
    let (a1, es) = each member_join a joined in
    let (a2, es') = each member_leave a1 left in (a2, es ++ es')

-- The ID that `Spawn` uses: where the given one is empty, the random one that it draws.
unfoldable pub used_id : String → String → String
used_id drawn id = if nat_eq (str_len id) 0 then drawn else id

-- `Spawn` returns the PID of the process whether or not its ID is taken. `drawn` is the ID that it
-- draws where it needs one.
unfoldable pub handle_activation_request :
    String → Agent → String → String → ActivationResponse × List Effect
unfolding has_kind_local new_pid used_id
handle_activation_request drawn a kind id =
    if has_kind_local a kind
    then (
      record {
        pid = some (new_pid a.address (str_append kind (str_append "/" (used_id drawn id))));
        success = true;
      },
      spawn kind id ∷ [],
    )
    else (record { pid = none; success = false }, [])

-- A response of a remote member counts when it is one of success.
unfoldable pub accepted : Answer → Option ActivationResponse
accepted failed = none
accepted other_type = none
accepted (answered r) = if r.success then some r else none

-- The response, with what the local activation asks of the engine. `ask` is the request to the
-- agent of another host with its result.
unfoldable pub activate_on :
    (Pid → String → String → Answer)
    → String
    → Agent
    → String
    → ActivationConfig
    → Member
    → Option (ActivationResponse × List Effect)
unfolding handle_activation_request accepted new_pid
activate_on ask drawn a kind config m =
    if m.host == a.address then some (handle_activation_request drawn a kind config.id) else (do
      r ← accepted (ask (new_pid m.host (str_append "cluster/" m.id)) kind config.id)
      some (r, []))

-- `random` stands for `SelectRandomMember`.
unfoldable pub select_with : SelectMemberFunc → ActivationConfig → SelectMemberFunc
select_with random config = elim config.select_member [ none ↦ random | some f ↦ f ]

unfoldable pub choose_member : SelectMemberFunc → Agent → String → ActivationConfig → Option Member
unfolding select_with
choose_member random a kind config = choose (filter_by_kind a.members kind)
  where
    choose : List Member → Option Member
    choose [] = none
    choose (m ∷ ms) =
        select_with random config (record { members = m ∷ ms; region = config.region; kind = kind })

-- The end of `activate`: the activation goes to every member, whatever PID the response has.
unfoldable pub announce :
    Agent → Option (ActivationResponse × List Effect) → Option Pid × List Effect
unfolding bcast
announce a none = (none, [])
announce a (some (r, es)) = (r.pid, es ++ bcast a (activation r.pid))

-- `Agent.activate`, which `activate` is the request of.
unfoldable pub activate_kind :
    SelectMemberFunc
    → (Pid → String → String → Answer)
    → String
    → Agent
    → String
    → ActivationConfig
    → Option Pid × List Effect
unfolding choose_member activate_on announce
activate_kind random ask drawn a kind config =
    if has (str_append kind (str_append "/" config.id)) a.activated
    then (none, [])
    else announce a (choose_member random a kind config >>= activate_on ask drawn a kind config)

-- The text before the first `/`, which is the first part of the split.
unfoldable pub kind_of : String → String
kind_of id = str_slice id 0 (str_find id "/")

unfoldable pub of_kind : String → Dict String Pid → List Pid
unfolding kind_of
of_kind kind [] = []
of_kind kind ((id, pid) ∷ ps) =
    if kind == kind_of id then pid ∷ of_kind kind ps else of_kind kind ps

-- Both answers go out when the request has an ID and a kind.
unfoldable pub handle_get_active : Agent → String → String → List Effect
unfolding of_kind
handle_get_active a id kind =
    (if ltb 0 (str_len id) then respond (pid_reply (lookup id a.activated)) ∷ [] else [])
    ++ (if ltb 0 (str_len kind) then respond (pids_reply (of_kind kind a.activated)) ∷ [] else [])

unfoldable pub receive :
    SelectMemberFunc
    → (Pid → String → String → Answer)
    → String
    → Agent
    → Request
    → Agent × List Effect
unfolding handle_actor_topology handle_members handle_activation handle_deactivation activate_kind
    handle_activation_request handle_get_active bcast
receive random ask drawn a started_msg = (a, [])
receive random ask drawn a stopped_msg = (a, [])
receive random ask drawn a (actor_topology_msg pids) = (handle_actor_topology a pids, [])
receive random ask drawn a (members_msg members) = handle_members a members
receive random ask drawn a (activation_msg pid) = handle_activation a pid
receive random ask drawn a (activate kind config) =
    let (pid, es) = activate_kind random ask drawn a kind config in
    (a, es ++ respond (pid_reply pid) ∷ [])
receive random ask drawn a (deactivate pid) = (a, bcast a (deactivation pid))
receive random ask drawn a (deactivation_msg pid) = handle_deactivation a pid
receive random ask drawn a (activation_request kind id) =
    let (resp, es) = handle_activation_request drawn a kind id in
    (a, es ++ respond (activation_reply resp) ∷ [])
receive random ask drawn a get_members = (a, respond (members_reply (slice a.members)) ∷ [])
receive random ask drawn a get_kinds = (a, respond (kinds_reply (keys a.kinds)) ∷ [])
receive random ask drawn a (get_active id kind) = (a, handle_get_active a id kind)

-- `kinds` are the cluster's local kinds, a map from names.
unfoldable pub new_agent : String → List String → Agent
unfolding add_kinds
new_agent address names = record {
  address = address;
  members = new_member_set [];
  kinds = add_kinds [] names;
  local_kinds = names;
  activated = [];
}
