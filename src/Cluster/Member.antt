-- ===== src/Cluster/Member.antt =====
-- cluster/util.go, and the messages `Member` and `CID` of cluster/cluster.proto.
use Prim.Native.String.{◌++◌}
use distributed_framework.Actor.Pid.{Pid, new_pid}
use distributed_framework.Common.{
  String, Bool, true, false, ◌&&◌, List, [], ◌∷◌, if◌then◌else◌, ◌==◌, nat_keys, string_keys,
}

pub record Member : Type 0 where
  pub id : String
  pub host : String
  pub region : String
  pub kinds : List String

-- `Member.PID`: the agent of the member's node.
unfoldable pub agent_pid : Member → Pid
unfolding new_pid
agent_pid m = new_pid m.host ("cluster/" ++ m.id)

-- `memberToProviderPID`
unfoldable pub provider_pid : Member → Pid
unfolding new_pid
provider_pid m = new_pid m.host ("provider/" ++ m.id)

unfoldable pub equals : Member → Member → Bool
equals m other = m.host == other.host && m.id == other.id

-- The loop of `HasKind` over the kinds.
unfoldable pub contains_kind : List String → String → Bool
contains_kind [] kind = false
contains_kind (k ∷ ks) kind = if k == kind then true else contains_kind ks kind

unfoldable pub has_kind : Member → String → Bool
unfolding contains_kind
has_kind m kind = contains_kind m.kinds kind

pub record Cid : Type 0 where
  pub pid : Pid
  pub kind : String
  pub id : String
  pub region : String

unfoldable pub new_cid : Pid → String → String → String → Cid
new_cid pid kind id region = record { pid = pid; kind = kind; id = id; region = region }

unfoldable pub cid_equals : Cid → Cid → Bool
cid_equals cid other = cid.id == other.id && cid.kind == other.kind
