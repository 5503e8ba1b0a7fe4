-- ===== src/Cluster/Provider/Exchange.antt =====
-- cluster/selfmanaged.go: two providers that meet.
use distributed_framework.Common.Dict.{has}
use distributed_framework.Actor.Pid.{Pid}
use distributed_framework.Cluster.MemberSet.{MemberSet, slice}
use distributed_framework.Cluster.MemberSet.Laws.{lists, IsValid, lists-values}
use distributed_framework.Cluster.Provider.{
  SelfManaged, send_members, receive, handshake, members, add_missing, add_members,
  send_members_to_agent,
}
use distributed_framework.Cluster.Provider.Laws.{add_missing_lem}
use distributed_framework.Common.{
  String, ◌≡◌, refl, ◌∙◌, true, some, [], ◌∷◌, arith, if◌then◌else◌, ◌==◌, nat_keys, string_keys,
}

-- When a provider with valid members sends its handshake to another one and handles the list that
-- comes back, the other then knows its old members and the sender, and the sender its old members
-- and all that the other knows; both sets stay valid and each provider tells its agent.
pub exchange_lem :
    (a b : SelfManaged) (own_a own_b : Pid) (id : String)
    → IsValid a.members
    → IsValid b.members
    → (a' : SelfManaged) × (b' : SelfManaged) × (receive b own_b (handshake (some own_a) a.self)
        ≡ some (
          b',
          send_members (some b.agent_pid) (slice b'.members)
              ∷ send_members (some own_a) (slice b'.members)
              ∷ [],
        ))
      × (receive a own_a (members (slice b'.members))
          ≡ some (a', send_members (some a.agent_pid) (slice a'.members) ∷ []))
      × IsValid a'.members
      × IsValid b'.members
      × (has id b'.members.members ≡ (if has id b.members.members then true else a.self.id == id))
      × (has id a'.members.members
          ≡ (if has id a.members.members then true else has id b'.members.members))
unfolding receive add_members send_members_to_agent slice lists
exchange_lem a b own_a own_b id va vb =
    let met : MemberSet = add_missing b.members (a.self ∷ []) in
    let (wb, hb) = add_missing_lem b.members (a.self ∷ []) id vb in
    let (wa, ha) = add_missing_lem a.members (slice met) id va in
    (
      record a { members = add_missing a.members (slice met) },
      record b { members = met },
      refl,
      refl,
      wa,
      wb,
      hb ∙ ground arith,
      ha ∙ rw (lists-values met.members id wb.keyed) refl,
    )
