-- ===== src/Cluster/Agent/Spread.antt =====
-- cluster/agent.go: how an activation becomes known to the agents of the cluster.
use Prim.Native.String.{◌++◌ as str_append}
use distributed_framework.Common.Dict.{has}
use distributed_framework.Actor.Pid.{Pid, equals, new_pid}
use distributed_framework.Cluster.Member.{Member, agent_pid}
use distributed_framework.Cluster.MemberSet.{slice}
use distributed_framework.Cluster.Activation.{ActivationConfig, SelectMemberFunc}
use distributed_framework.Cluster.Agent.{
  Agent, activate_kind, announce, handle_activation, bcast, activate_on, handle_activation_request,
  has_kind_local, accepted, choose_member, str_len,
}
use distributed_framework.Cluster.Messages.{
  Answer, Effect, send, broadcast, respond, poison, spawn, actor_topology, activation, deactivation,
  ActivationResponse,
}
use distributed_framework.Cluster.Agent.Activate.{asked, has-add_activated, announced, activate_lem}
use distributed_framework.Common.{
  ◌≡◌, Bool, true, false, none, some, List, [], ◌∷◌, map, arith, if◌then◌else◌, nat_keys,
  string_keys, String, refl, ◌∙◌, inl, inr, ◌++◌, Bool-cases, Option-cases, ◌==◌, ◌>>=◌, Option,
  sym, ap, ltb,
}

-- The agents by their PIDs, after each has handled the activations that are sent to it.
unfoldable pub deliver : List Effect → (Pid → Agent) → Pid → Agent
deliver [] w q = w q
deliver (send p (activation (some pid)) ∷ es) w q =
    deliver es (λ x. if equals x p then (handle_activation (w x) pid).0 else w x) q
deliver (send p (activation none) ∷ es) w q = deliver es w q
deliver (send p (actor_topology pids) ∷ es) w q = deliver es w q
deliver (send p (deactivation pid) ∷ es) w q = deliver es w q
deliver (broadcast ev ∷ es) w q = deliver es w q
deliver (respond r ∷ es) w q = deliver es w q
deliver (poison p ∷ es) w q = deliver es w q
deliver (spawn kind id ∷ es) w q = deliver es w q

-- Whether a PID is that of a member's agent.
unfoldable pub is_agent_of : List Member → Pid → Bool
is_agent_of [] q = false
is_agent_of (m ∷ ms) q = if equals q (agent_pid m) then true else is_agent_of ms q

spread :
    (ms : List Member) (pid : Pid) (w : Pid → Agent) (q : Pid)
    → has pid.id (deliver (map (λ m. send (agent_pid m) (activation (some pid))) ms) w q).activated
      ≡ (if has pid.id (w q).activated then true else is_agent_of ms q)
unfolding deliver is_agent_of handle_activation
spread [] pid w q = ground arith
spread (m ∷ ms) pid w q = elim (Bool-cases (equals q (agent_pid m))) [
  | inl there ↦
      spread ms pid (λ x. if equals x (agent_pid m) then (handle_activation (w x) pid).0 else w x) q
      ∙ rw there (rw (has-add_activated (w q) pid) (ground arith))
  | inr elsewhere ↦
      spread ms pid (λ x. if equals x (agent_pid m) then (handle_activation (w x) pid).0 else w x) q
      ∙ rw elsewhere refl
]

-- A local activation spawns the process, and a remote one asks nothing of this engine.
spawned :
    (ask : Pid → String → String → Answer) (own : String) (a : Agent) (kind : String)
    (config : ActivationConfig) (m : Member) (r : ActivationResponse) (es es' : List Effect)
    (w : Pid → Agent) (q : Pid)
    → activate_on ask own a kind config m ≡ some (r, es)
    → deliver (es ++ es') w q ≡ deliver es' w q
unfolding activate_on deliver handle_activation_request
spawned ask own a kind config m r es es' w q h = elim (Bool-cases (m.host == a.address)) [
  | inl eq ↦ elim (Bool-cases (has_kind_local a kind)) [
    | inl e ↦ ground arith
    | inr e ↦ ground arith
  ]
  | inr ne ↦
      elim (Option-cases
        (accepted (ask (new_pid m.host (str_append "cluster/" m.id)) kind config.id))) [
          | inl absent ↦ ground arith
          | inr (r', found) ↦ ground arith
        ]
]

-- An activation that succeeds reaches the agents of the members that the activating agent knows.
activate-deliver :
    (ask : Pid → String → String → Answer) (own : String) (a : Agent) (kind : String)
    (config : ActivationConfig) (o : Option Member) (pid : Pid) (w : Pid → Agent) (q : Pid)
    → (announce a (o >>= activate_on ask own a kind config)).0 ≡ some pid
    → has pid.id (deliver (announce a (o >>= activate_on ask own a kind config)).1 w q).activated
      ≡ (if has pid.id (w q).activated then true else is_agent_of (slice a.members) q)
unfolding announce bcast
activate-deliver ask own a kind config o pid w q h =
    let (m, r, es, chosen, done, by) = announced a o (activate_on ask own a kind config) pid h in
    rw
      (
        chosen,
        done,
        by,
        spawned ask own a kind config m r es
            (map (λ x. send (agent_pid x) (activation (some pid))) (slice a.members)) w q done,
      )
      (spread (slice a.members) pid w q)

known :
    (random : SelectMemberFunc) (ask : Pid → String → String → Answer) (own : String) (a : Agent)
    (kind : String) (config : ActivationConfig) (pid : Pid) (w : Pid → Agent) (q : Pid)
    → (activate_kind random ask own a kind config).0 ≡ some pid
    → has pid.id (deliver (activate_kind random ask own a kind config).1 w q).activated
      ≡ (if has pid.id (w q).activated then true else is_agent_of (slice a.members) q)
unfolding activate_kind
known random ask own a kind config pid w q h =
    elim (Bool-cases (has (str_append kind (str_append "/" config.id)) a.activated)) [
      | inl e ↦ ground arith
      | inr e ↦ rw e (
          activate-deliver ask own a kind config (choose_member random a kind config) pid w q
            (ground arith))
    ]

refused :
    (random : SelectMemberFunc) (ask : Pid → String → String → Answer) (own : String) (b : Agent)
    (pid : Pid) (kind : String) (config : ActivationConfig)
    → str_append kind (str_append "/" config.id) ≡ pid.id
    → has pid.id b.activated ≡ true
    → activate_kind random ask own b kind config ≡ (none, [])
unfolding activate_kind
refused random ask own b pid kind config same h = rw (same, h) refl

-- When an activation with an ID that is not empty succeeds and every agent has handled the
-- activations sent to it, an agent of a member that the activating agent knows has the PID and
-- refuses to activate the kind and the ID again, while another agent has the PID only if it had it
-- before. The other hosts' agents answer by the code of handleActivationRequest.
pub spread_lem :
    (random : SelectMemberFunc) (drawn : Pid → String) (other : Pid → Agent) (own : String)
    (a : Agent) (kind : String) (config : ActivationConfig) (pid : Pid) (w : Pid → Agent)
    (q s : Pid)
    → ltb 0 (str_len config.id) ≡ true
    → ((p : Pid) → (other p).address ≡ p.address)
    → (activate_kind random (asked drawn other) own a kind config).0 ≡ some pid
    → is_agent_of (slice a.members) q ≡ true
    → is_agent_of (slice a.members) s ≡ false
    → let after : Pid → Agent =
        deliver (activate_kind random (asked drawn other) own a kind config).1 w in
      (has pid.id (after q).activated ≡ true)
      × (activate_kind random (asked drawn other) own (after q) kind config ≡ (none, []))
      × (has pid.id (after s).activated ≡ has pid.id (w s).activated)
unfolding new_pid
spread_lem random drawn other own a kind config pid w q s k same h inside outside =
    let (fresh, (m, chosen, at), _) =
      activate_lem random drawn other own a a kind config pid k same h in
    let there : has pid.id
          (deliver (activate_kind random (asked drawn other) own a kind config).1 w q).activated
        ≡ true =
      known random (asked drawn other) own a kind config pid w q h ∙ rw inside (ground arith) in
    (
      there,
      refused random (asked drawn other) own
          (deliver (activate_kind random (asked drawn other) own a kind config).1 w q) pid kind
          config (sym (ap (λ p. p.id) at)) there,
      known random (asked drawn other) own a kind config pid w s h ∙ rw outside (ground arith),
    )
