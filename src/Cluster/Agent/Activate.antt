-- ===== src/Cluster/Agent/Activate.antt =====
-- cluster/agent.go: activation, and the agent's invariant.
use distributed_framework.Common.Dict.{values, has, has-insert}
use distributed_framework.Cluster.Member.{Member}
use distributed_framework.Cluster.MemberSet.Laws.{IsValid}
use distributed_framework.Cluster.Agent.Members.{handle_members-exact}
use distributed_framework.Cluster.Agent.Activated.{
  PidsValid, add_activated-PidsValid, remove_activated-PidsValid, remove_host-PidsValid,
}
use distributed_framework.Cluster.Agent.{
  Agent, receive, each, member_join, member_leave, rebuild_kinds, handle_members,
  handle_actor_topology, handle_activation, handle_deactivation, add_activated, remove_activated,
  activate_kind, choose_member, activate_on, handle_activation_request, accepted, announce, used_id,
  str_len,
}
use distributed_framework.Cluster.Messages.{
  Answer, Request, Effect, actor_topology_msg, answered, ActivationResponse, members_msg,
  activation_msg, activate, deactivate, deactivation_msg, activation_request, get_active,
  started_msg, stopped_msg, get_members, get_kinds,
}
use distributed_framework.Cluster.Activation.{ActivationConfig, SelectMemberFunc}
use Prim.Native.String.{◌++◌ as str_append}
use distributed_framework.Cluster.MemberSet.{new_member_set, remove, slice, except}
use distributed_framework.Actor.Pid.{Pid, new_pid}
use distributed_framework.Common.{
  String, ◌≡◌, refl, ◌∙◌, List, [], ◌∷◌, arith, nat_keys, string_keys, some, false, ◌>>=◌, inl, inr,
  Option, none, Bool-cases, Option-cases, ◌==◌, ==_iff, sym, ap, true, ==_refl, ltb,
}

pub record AgentValid (a : Agent) : Type 0 where
  pub members_valid : IsValid a.members
  pub pids_valid : PidsValid a.activated

topology-PidsValid :
    (a : Agent) (ps : List Pid)
    → PidsValid a.activated
    → PidsValid (handle_actor_topology a ps).activated
unfolding handle_actor_topology
topology-PidsValid a [] v = v
topology-PidsValid a (p ∷ ps) v =
    topology-PidsValid (add_activated a p) ps (add_activated-PidsValid a p v)

topology-members : (a : Agent) (ps : List Pid) → (handle_actor_topology a ps).members ≡ a.members
unfolding handle_actor_topology add_activated
topology-members a [] = refl
topology-members a (p ∷ ps) = topology-members (add_activated a p) ps ∙ ground arith

joins-PidsValid :
    (a : Agent) (ms : List Member)
    → PidsValid a.activated
    → PidsValid (each member_join a ms).0.activated
unfolding each member_join
joins-PidsValid a [] v = v
joins-PidsValid a (m ∷ ms) v = joins-PidsValid (member_join a m).0 ms v

leaves-PidsValid :
    (a : Agent) (ms : List Member)
    → PidsValid a.activated
    → PidsValid (each member_leave a ms).0.activated
unfolding each member_leave rebuild_kinds
leaves-PidsValid a [] v = v
leaves-PidsValid a (m ∷ ms) v = leaves-PidsValid (member_leave a m).0 ms (
    remove_host-PidsValid (rebuild_kinds (record a { members = remove a.members m })) m.host
      (values a.activated) v)

members-PidsValid :
    (a : Agent) (ms : List Member)
    → PidsValid a.activated
    → PidsValid (handle_members a ms).0.activated
unfolding handle_members
members-PidsValid a ms v =
    leaves-PidsValid (each member_join a (except (new_member_set ms) (slice a.members))).0
      (except a.members ms) (joins-PidsValid a (except (new_member_set ms) (slice a.members)) v)

-- Every message that an agent receives leaves its state valid: each member stands once under its
-- own ID, and so does each activated PID.
pub receive-AgentValid :
    (random : SelectMemberFunc) (ask : Pid → String → String → Answer) (drawn : String) (a : Agent)
    (msg : Request)
    → AgentValid a
    → AgentValid (receive random ask drawn a msg).0
unfolding receive handle_activation handle_deactivation add_activated remove_activated
receive-AgentValid random ask drawn a started_msg v = v
receive-AgentValid random ask drawn a stopped_msg v = v
receive-AgentValid random ask drawn a (actor_topology_msg ps) v = record {
  members_valid = rw (topology-members a ps) v.members_valid;
  pids_valid = topology-PidsValid a ps v.pids_valid;
}
receive-AgentValid random ask drawn a (members_msg ms) v = record {
  members_valid = (handle_members-exact a ms "" v.members_valid).0;
  pids_valid = members-PidsValid a ms v.pids_valid;
}
receive-AgentValid random ask drawn a (activation_msg p) v = record {
  members_valid = ground arith;
  pids_valid = add_activated-PidsValid a p v.pids_valid;
}
receive-AgentValid random ask drawn a (activate kind config) v = v
receive-AgentValid random ask drawn a (deactivate p) v = v
receive-AgentValid random ask drawn a (deactivation_msg p) v = record {
  members_valid = v.members_valid;
  pids_valid = remove_activated-PidsValid a p v.pids_valid;
}
receive-AgentValid random ask drawn a (activation_request kind id) v = v
receive-AgentValid random ask drawn a get_members v = v
receive-AgentValid random ask drawn a get_kinds v = v
receive-AgentValid random ask drawn a (get_active id kind) v = v

-- The request to the agent of another host, run on that agent, whose engine draws `drawn p`.
unfoldable pub asked : (Pid → String) → (Pid → Agent) → Pid → String → String → Answer
asked drawn other p kind id = answered (handle_activation_request (drawn p) (other p) kind id).0

request-pid :
    (drawn : String) (a : Agent) (kind id : String) (pid : Pid)
    → ltb 0 (str_len id) ≡ true
    → (handle_activation_request drawn a kind id).0.pid ≡ some pid
    → pid ≡ new_pid a.address (str_append kind (str_append "/" id))
unfolding handle_activation_request used_id
request-pid drawn a kind id pid k h = ground arith

asked-pid :
    (drawn : Pid → String) (other : Pid → Agent) (p : Pid) (kind id : String)
    (r : ActivationResponse) (pid : Pid)
    → ltb 0 (str_len id) ≡ true
    → accepted (asked drawn other p kind id) ≡ some r
    → r.pid ≡ some pid
    → pid ≡ new_pid (other p).address (str_append kind (str_append "/" id))
unfolding accepted asked
asked-pid drawn other p kind id r pid k h e =
    ground (arith, request-pid (drawn p) (other p) kind id pid k)

activate_on-pid :
    (drawn : Pid → String) (other : Pid → Agent) (own : String) (a : Agent) (kind : String)
    (config : ActivationConfig) (m : Member) (r : ActivationResponse) (es : List Effect) (pid : Pid)
    → ltb 0 (str_len config.id) ≡ true
    → ((p : Pid) → (other p).address ≡ p.address)
    → activate_on (asked drawn other) own a kind config m ≡ some (r, es)
    → r.pid ≡ some pid
    → pid ≡ new_pid m.host (str_append kind (str_append "/" config.id))
unfolding activate_on new_pid
activate_on-pid drawn other own a kind config m r es pid k same h e =
    let to : Pid = new_pid m.host (str_append "cluster/" m.id) in
    elim (Bool-cases (m.host == a.address)) [
      | inl eq ↦ ground (arith, ==_iff m.host a.address, request-pid own a kind config.id pid k)
      | inr ne ↦ elim (Option-cases (accepted (asked drawn other to kind config.id))) [
        | inl absent ↦ ground arith
        | inr (r', found) ↦
            ground (arith, same to, asked-pid drawn other to kind config.id r' pid k found)
      ]
    ]

pub announced :
    (a : Agent) (o : Option Member) (f : Member → Option (ActivationResponse × List Effect))
    (pid : Pid)
    → (announce a (o >>= f)).0 ≡ some pid
    → (m : Member) × (r : ActivationResponse) × (es : List Effect) × (o ≡ some m)
      × (f m ≡ some (r, es))
      × (r.pid ≡ some pid)
unfolding announce
announced a none f pid h = cc
announced a (some m) f pid h = elim (Option-cases (f m)) [
  | inl absent ↦ cc
  | inr ((r, es), found) ↦ (m, r, es, refl, found, ground arith)
]

pub has-add_activated : (b : Agent) (pid : Pid) → has pid.id (add_activated b pid).activated ≡ true
unfolding add_activated
has-add_activated b pid = ground (arith, has-insert pid.id pid.id pid b.activated, ==_refl pid.id)

pub blocked :
    (random : SelectMemberFunc) (ask : Pid → String → String → Answer) (own : String) (b : Agent)
    (pid : Pid) (kind : String) (config : ActivationConfig)
    → str_append kind (str_append "/" config.id) ≡ pid.id
    → activate_kind random ask own (handle_activation b pid).0 kind config ≡ (none, [])
unfolding activate_kind handle_activation
blocked random ask own b pid kind config h = rw (h, has-add_activated b pid) refl

-- Where the other hosts' agents answer by the code of handleActivationRequest and the ID of the
-- configuration is not empty, a successful activation was not a known duplicate and yields the PID
-- of the kind and the ID on the chosen member's host, local or remote; an agent that has handled
-- the activation of that PID refuses every further activation of the kind and the ID.
pub activate_lem :
    (random : SelectMemberFunc) (drawn : Pid → String) (other : Pid → Agent) (own : String)
    (a b : Agent) (kind : String) (config : ActivationConfig) (pid : Pid)
    → ltb 0 (str_len config.id) ≡ true
    → ((p : Pid) → (other p).address ≡ p.address)
    → (activate_kind random (asked drawn other) own a kind config).0 ≡ some pid
    → (has (str_append kind (str_append "/" config.id)) a.activated ≡ false)
      × ((m : Member) × (choose_member random a kind config ≡ some m)
          × (pid ≡ new_pid m.host (str_append kind (str_append "/" config.id))))
      × (activate_kind random (asked drawn other) own (handle_activation b pid).0 kind config
          ≡ (none, []))
unfolding activate_kind new_pid
activate_lem random drawn other own a b kind config pid k same h =
    elim (Bool-cases (has (str_append kind (str_append "/" config.id)) a.activated)) [
      | inl e ↦ ground arith
      | inr e ↦
          let (m, r, es, chosen, done, by) =
            announced a (choose_member random a kind config)
              (activate_on (asked drawn other) own a kind config) pid (ground arith) in
          let at : pid ≡ new_pid m.host (str_append kind (str_append "/" config.id)) =
            activate_on-pid drawn other own a kind config m r es pid k same done by in
          (
            e,
            (m, chosen, at),
            blocked random (asked drawn other) own b pid kind config (sym (ap (λ p. p.id) at)),
          )
    ]
