-- ===== src/Cluster/Consul.antt =====
-- cluster/consul_provider.go: the provider that registers the node at Consul and takes the members
-- from it. The client, the checks and the waiting indices are of the library consul/api.
pub mod Laws
mod Tests
use distributed_framework.Common.Dict.{Dict, lookup, insert}
use distributed_framework.Common.Decimal.{ℤ, pos, itoa, atoi}
use distributed_framework.Common.HostPort.{split_host_port}
use distributed_framework.Actor.Pid.{Pid}
use distributed_framework.Cluster.Member.{Member}
use distributed_framework.Cluster.Client.{Cluster, kinds_to_string}
use Prim.Native.String.{◌++◌ as str_append}
use distributed_framework.Common.{
  ℕ, String, Bool, true, false, Option, none, some, List, [], ◌++◌, nat_keys, string_keys, ◌>>=◌,
  ◌∷◌, if◌then◌else◌, Comparable, ◌==◌,
}

-- Durations in nanoseconds.
abbrev pub register_ttl : ℕ
register_ttl = 4000000000

abbrev pub remove_ttl : ℕ
remove_ttl = 8000000000

pub record ConsulProviderConfig : Type 0 where
  pub address : String

unfoldable pub new_consul_provider_config : ConsulProviderConfig
new_consul_provider_config = record { address = "127.0.0.1:8500" }

unfoldable pub with_address : ConsulProviderConfig → String → ConsulProviderConfig
with_address c address = record c { address = address }

-- What the provider reads of its cluster: the ID and the listening address of the configuration,
-- the agent's PID and the kinds' names.
pub record Node : Type 0 where
  pub id : String
  pub listen_addr : String
  pub agent_pid : Pid
  pub kinds : List String

-- There is no node before the cluster has started its agent.
unfoldable pub node_of : {P : Type 0} → String → Cluster P → Option Node
unfolding kinds_to_string
node_of listen_addr c = c.agent >>= λ pid.
    some
      (record { id = c.id; listen_addr = listen_addr; agent_pid = pid; kinds = kinds_to_string c })

-- `prev_index` is an index of the type `I`; `quit` is whether `quitch` is closed.
pub record ConsulProvider (I : Type 0) : Type 0 where
  pub config : ConsulProviderConfig
  pub cluster : Node
  pub id : String
  pub prev_index : I
  pub quit : Bool

-- `first` is `watch.WaitIndexVal(0)`.
unfoldable pub new_consul_provider :
    {I : Type 0} → ConsulProviderConfig → Node → I → ConsulProvider I
new_consul_provider config cluster first = record {
  config = config;
  cluster = cluster;
  id = "";
  prev_index = first;
  quit = false;
}

-- `api.AgentServiceCheck`, with its durations in nanoseconds.
pub record ServiceCheck : Type 0 where
  pub deregister_critical_service_after : ℕ
  pub tls_skip_verify : Bool
  pub ttl : ℕ
  pub check_id : String

-- `api.AgentServiceRegistration`. The map of tagged addresses is empty.
pub record ServiceRegistration : Type 0 where
  pub id : String
  pub name : String
  pub tags : List String
  pub address : String
  pub port : ℤ
  pub metadata : Dict String String
  pub enable_tag_override : Bool
  pub check : ServiceCheck

-- `api.ServiceEntry`, with its checks of the type `C`; `address`, `port`, `metadata` and `tags`
-- are its service's.
pub record ServiceEntry (C : Type 0) : Type 0 where
  pub address : String
  pub port : ℤ
  pub metadata : Dict String String
  pub tags : List String
  pub checks : List C

-- The empty texts of `SplitHostPort` are those of an error.
abbrev pub host_or_empty : Option (String × String) → String × String
host_or_empty none = ("", "")
host_or_empty (some hp) = hp

module _ {I : Type 0} where
  unfoldable pub member_id : ConsulProvider I → String
  unfolding split_host_port
  member_id p =
      let (host, port) = host_or_empty (split_host_port p.cluster.listen_addr) in
      str_append p.cluster.id (str_append "." (str_append host (str_append ":" port)))

  -- What `registerService` registers, replacing the existing checks.
  unfoldable pub registration : ConsulProvider I → ServiceRegistration
  unfolding member_id split_host_port atoi
  registration p =
      let (host, port) = host_or_empty (split_host_port p.cluster.agent_pid.address) in
      record {
        id = member_id p;
        name = "Actors_actor";
        tags = p.cluster.kinds;
        address = host;
        port = (atoi port).0;
        metadata = insert "name" p.cluster.id [];
        enable_tag_override = true;
        check = record {
          deregister_critical_service_after = remove_ttl;
          tls_skip_verify = true;
          ttl = register_ttl;
          check_id = member_id p;
        };
      }

  unfoldable pub register_service : ConsulProvider I → ConsulProvider I × ServiceRegistration
  unfolding registration member_id
  register_service p = (record p { id = member_id p }, registration p)

-- `m[k]` of a map of texts.
abbrev pub text_or_empty : Option String → String
text_or_empty none = ""
text_or_empty (some t) = t

unfoldable pub member_of : {C : Type 0} → ServiceEntry C → Member
unfolding itoa
member_of e = record {
  id = text_or_empty (lookup "name" e.metadata);
  host = str_append e.address (str_append ":" (itoa e.port));
  region = "";
  kinds = e.tags;
}

pub data ConsulEffect : Type 0 where
  send_members : Pid → List Member → ConsulEffect
  register : ServiceRegistration → ConsulEffect
  start_watch start_update_ttl : ConsulEffect
  update_ttl : String → ConsulEffect

-- `aggregated_passing` is whether `AggregatedStatus` of the checks is `HealthPassing`.
module _ {C : Type 0} (aggregated_passing : List C → Bool) where
  unfoldable pub is_healthy : ServiceEntry C → Bool
  is_healthy e = elim e.checks [ [] ↦ false | _ ∷ _ ↦ aggregated_passing e.checks ]

  -- The loop of `onUpdate` over the entries.
  unfoldable pub healthy_members : List (ServiceEntry C) → List Member
  unfolding is_healthy member_of
  healthy_members [] = []
  healthy_members (e ∷ es) =
      if is_healthy e then member_of e ∷ healthy_members es else healthy_members es

  module _ {I : Type 0} ⦃keys : Comparable I⦄ where
    -- `none` is a message of another type.
    unfoldable pub on_update :
        ConsulProvider I → I → Option (List (ServiceEntry C)) → ConsulProvider I × List ConsulEffect
    unfolding healthy_members
    on_update p index none = (p, [])
    on_update p index (some entries) = (
      record p { prev_index = index },
      (if p.prev_index == index then [] else elim (healthy_members entries) [
        | [] ↦ []
        | m ∷ ms ↦ send_members p.cluster.agent_pid (m ∷ ms) ∷ []
      ]),
    )

    -- The updates of a plan that runs, one after the other.
    unfoldable pub watch_updates :
        ConsulProvider I
        → List (I × Option (List (ServiceEntry C)))
        → ConsulProvider I × List ConsulEffect
    unfolding on_update
    watch_updates p [] = (p, [])
    watch_updates p ((index, msg) ∷ rest) =
        let (p1, es) = on_update p index msg in
        let (p2, es') = watch_updates p1 rest in (p2, es ++ es')

-- What the loop of `updateTTL` receives: a tick of its timer, or the end of `quitch`.
pub data Wake : Type 0 where
  tick quit : Wake

unfoldable pub update_ttl_loop : {I : Type 0} → ConsulProvider I → List Wake → List ConsulEffect
update_ttl_loop p [] = []
update_ttl_loop p (tick ∷ rest) = update_ttl p.id ∷ update_ttl_loop p rest
update_ttl_loop p (quit ∷ rest) = []

pub data ConsulRequest : Type 0 where
  started stopped other : ConsulRequest

-- `registered` is whether the client registers the service without an error; `none` is the panic,
-- also that of closing `quitch` twice.
unfoldable pub receive :
    {I : Type 0}
    → ConsulProvider I
    → Bool
    → ConsulRequest
    → Option (ConsulProvider I × List ConsulEffect)
unfolding register_service
receive p registered started =
    let (p', r) = register_service p in
    if registered then some (p', register r ∷ start_watch ∷ start_update_ttl ∷ []) else none
receive p registered stopped = if p.quit then none else some (record p { quit = true }, [])
receive p registered other = some (p, [])
