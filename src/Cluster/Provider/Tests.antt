-- ===== src/Cluster/Provider/Tests.antt =====
-- cluster/selfmanaged.go: a node joins another one, and the discovery of a third.
use distributed_framework.Common.Dict.{has}
use distributed_framework.Common.Decimal.{pos}
use distributed_framework.Actor.Pid.{Pid}
use distributed_framework.Cluster.Member.{Member}
use distributed_framework.Cluster.MemberSet.{new_member_set, slice}
use distributed_framework.Cluster.MemberSet.Laws.{IsValid, new_member_set-IsValid}
use distributed_framework.Cluster.Provider.{
  SelfManaged, send_members, send_handshake, receive, handshake, members, discovered,
  init_auto_discovery,
}
use distributed_framework.Cluster.Provider.Exchange.{exchange_lem}
use distributed_framework.Common.{
  String, ◌≡◌, refl, true, none, some, [], ◌∷◌, if◌then◌else◌, ◌==◌, nat_keys, string_keys,
}

abbrev node : String → String → Member
node id host = record { id = id; host = host; region = "default"; kinds = [] }

abbrev provider : Member → Pid → SelfManaged
provider self own = record {
  config = record { bootstrap_members = [] };
  agent_pid = record { address = self.host; id = "cluster" };
  self = self;
  members = new_member_set (self ∷ []);
  pid = some own;
}

abbrev near_pid : Pid
near_pid = record { address = "a:1"; id = "provider/A" }

abbrev far_pid : Pid
far_pid = record { address = "b:1"; id = "provider/B" }

abbrev near : SelfManaged
near = provider (node "A" "a:1") near_pid

abbrev far : SelfManaged
far = provider (node "B" "b:1") far_pid

exchange_lem_example :
    (a' : SelfManaged) × (b' : SelfManaged) × (receive far far_pid
        (handshake (some near_pid) near.self)
      ≡ some (
        b',
        send_members (some far.agent_pid) (slice b'.members)
            ∷ send_members (some near_pid) (slice b'.members)
            ∷ [],
      ))
    × (receive near near_pid (members (slice b'.members))
        ≡ some (a', send_members (some near.agent_pid) (slice a'.members) ∷ []))
    × IsValid a'.members
    × IsValid b'.members
    × (has "B" b'.members.members
        ≡ (if has "B" far.members.members then true else near.self.id == "B"))
    × (has "B" a'.members.members
        ≡ (if has "B" near.members.members then true else has "B" b'.members.members))
exchange_lem_example =
    exchange_lem near far near_pid far_pid "B" (new_member_set-IsValid (near.self ∷ []))
      (new_member_set-IsValid (far.self ∷ []))

discovered_one :
    discovered near.self "a:1" (
      record { instance_id = "A"; addrs = []; port = pos 1 }
      ∷ record { instance_id = "C"; addrs = "10.0.0.3" ∷ []; port = pos 4000 }
      ∷ [])
    ≡ (
      send_handshake (record { address = "10.0.0.3:4000"; id = "provider/C" }) near.self near_pid
          ∷ [],
      true,
    )
unfolding discovered
discovered_one = refl

no_port : init_auto_discovery true true "A" "local" ≡ none
unfolding init_auto_discovery
no_port = refl
