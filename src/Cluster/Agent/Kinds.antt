-- ===== src/Cluster/Agent/Kinds.antt =====
-- cluster/agent.go: the kinds that the agent knows of.
use distributed_framework.Common.Dict.{Dict, has, insert, has-insert, values}
use distributed_framework.Cluster.Member.{Member, has_kind, contains_kind}
use distributed_framework.Cluster.MemberSet.{remove, slice}
use distributed_framework.Cluster.Agent.{
  Agent, add_kinds, kinds_of, member_join, member_leave, rebuild_kinds, remove_host,
  remove_activated,
}
use distributed_framework.Actor.Pid.{Pid}
use distributed_framework.Common.{
  String, ◌≡◌, refl, ◌∙◌, Bool, true, false, List, [], ◌∷◌, arith, if◌then◌else◌, ◌==◌, ==_iff,
  nat_keys, string_keys,
}

-- Whether a member of the list has the kind.
unfoldable pub any_has_kind : List Member → String → Bool
any_has_kind [] kind = false
any_has_kind (m ∷ ms) kind = if has_kind m kind then true else any_has_kind ms kind

has-add_kinds :
    (known : Dict String Bool) (ks : List String) (kind : String)
    → has kind (add_kinds known ks) ≡ (if contains_kind ks kind then true else has kind known)
unfolding add_kinds contains_kind
has-add_kinds known [] kind = refl
has-add_kinds known (k ∷ ks) kind =
    has-add_kinds (if has k known then known else insert k true known) ks kind
    ∙ ground (arith, ==_iff k kind, has-insert k kind true known)

has-kinds_of :
    (known : Dict String Bool) (ms : List Member) (kind : String)
    → has kind (kinds_of known ms) ≡ (if any_has_kind ms kind then true else has kind known)
unfolding kinds_of any_has_kind has_kind
has-kinds_of known [] kind = refl
has-kinds_of known (m ∷ ms) kind =
    has-kinds_of (add_kinds known m.kinds) ms kind
    ∙ ground (arith, has-add_kinds known m.kinds kind)

remove_host-kinds :
    (a : Agent) (host : String) (pids : List Pid) → (remove_host a host pids).kinds ≡ a.kinds
unfolding remove_host remove_activated
remove_host-kinds a host [] = refl
remove_host-kinds a host (p ∷ ps) =
    remove_host-kinds (if p.address == host then remove_activated a p else a) host ps ∙ ground arith

-- After a member has left, a kind is known exactly when a remaining member has it; after one has
-- joined, exactly when it has it or it was known before.
pub kinds_lem :
    (a : Agent) (m : Member) (kind : String)
    → (has kind (member_leave a m).0.kinds ≡ any_has_kind (slice (remove a.members m)) kind)
      × (has kind (member_join a m).0.kinds ≡ (if has_kind m kind then true else has kind a.kinds))
unfolding member_leave member_join rebuild_kinds has_kind has
kinds_lem a m kind = (
  rw
      (remove_host-kinds (rebuild_kinds (record a { members = remove a.members m })) m.host
        (values a.activated))
      (has-kinds_of [] (slice (remove a.members m)) kind ∙ ground arith),
  has-add_kinds a.kinds m.kinds kind,
)
