-- ===== src/Cluster/Provider.antt =====
-- cluster/selfmanaged.go: the provider that manages the member list by itself. The library
-- zeroconf announces the node and finds others; its answers are arguments.
pub mod Laws
pub mod Exchange
mod Tests
use distributed_framework.Actor.Pid.{Pid, new_pid}
use distributed_framework.Cluster.Member.{Member, provider_pid}
use distributed_framework.Cluster.MemberSet.{
  MemberSet, new_member_set, add, remove, contains, get_by_host, slice,
}
use distributed_framework.Common.Decimal.{ℤ, itoa, atoi}
use distributed_framework.Common.HostPort.{split_host_port}
use Prim.Native.String.{◌++◌ as str_append}
use distributed_framework.Common.{
  String, Bool, true, false, Option, none, some, List, [], ◌∷◌, ◌++◌, if◌then◌else◌, ◌==◌, nat_keys,
  string_keys, ◌>>=◌, not, ◌&&◌, get_elem?,
}

pub record MemberAddr : Type 0 where
  pub listen_addr : String
  pub id : String

pub record SelfManagedConfig : Type 0 where
  pub bootstrap_members : List MemberAddr

unfoldable pub new_self_managed_config : SelfManagedConfig
new_self_managed_config = record { bootstrap_members = [] }

unfoldable pub with_bootstrap_member : SelfManagedConfig → MemberAddr → SelfManagedConfig
with_bootstrap_member c m = record c { bootstrap_members = c.bootstrap_members ++ m ∷ [] }

-- `agent_pid` and `self` are the cluster's; `pid` is the provider's own.
pub record SelfManaged : Type 0 where
  pub config : SelfManagedConfig
  pub agent_pid : Pid
  pub self : Member
  pub members : MemberSet
  pub pid : Option Pid

unfoldable pub new_self_managed_provider : SelfManagedConfig → Pid → Member → SelfManaged
new_self_managed_provider config agent_pid self = record {
  config = config;
  agent_pid = agent_pid;
  self = self;
  members = new_member_set [];
  pid = none;
}

-- What the provider asks of the engine. A sender may be nil.
pub data ProviderEffect : Type 0 where
  send_members : Option Pid → List Member → ProviderEffect
  send_handshake : Pid → Member → Pid → ProviderEffect
  send_ping : Pid → Pid → ProviderEffect
  repeat_ping stop_ping subscribe unsubscribe discover stop_discovery : ProviderEffect
  send_leave : Option Pid → String → ProviderEffect

pub data ProviderRequest : Type 0 where
  started stopped initialized ping member_ping : ProviderRequest
  handshake : Option Pid → Member → ProviderRequest
  members : List Member → ProviderRequest
  member_leave : String → ProviderRequest
  other : ProviderRequest

unfoldable pub send_members_to_agent : SelfManaged → List ProviderEffect
send_members_to_agent s = send_members (some s.agent_pid) (slice s.members) ∷ []

unfoldable pub add_missing : MemberSet → List Member → MemberSet
add_missing s [] = s
add_missing s (m ∷ ms) = add_missing (if contains s m then s else add s m) ms

unfoldable pub add_members : SelfManaged → List Member → SelfManaged × List ProviderEffect
unfolding add_missing send_members_to_agent
add_members s ms =
    let s' : SelfManaged = record s { members = add_missing s.members ms } in
    (s', send_members_to_agent s')

-- A member that is nil has no ID to look up: `none` is the panic.
unfoldable pub remove_member :
    SelfManaged → Option Member → Option (SelfManaged × List ProviderEffect)
unfolding send_members_to_agent
remove_member s none = none
remove_member s (some m) =
    let s' : SelfManaged =
      if contains s.members m then record s { members = remove s.members m } else s in
    some (s', send_members_to_agent s')

unfoldable pub ping_members : String → Pid → List Member → List ProviderEffect
unfolding provider_pid
ping_members host from [] = []
ping_members host from (m ∷ ms) =
    if m.host == host
    then ping_members host from ms
    else send_ping (provider_pid m) from ∷ ping_members host from ms

unfoldable pub handle_member_ping : SelfManaged → Pid → List ProviderEffect
unfolding ping_members
handle_member_ping s own = ping_members s.agent_pid.address own (slice s.members)

unfoldable pub handshakes : Member → Pid → List MemberAddr → List ProviderEffect
unfolding new_pid
handshakes self own [] = []
handshakes self own (a ∷ as') =
    send_handshake (new_pid a.listen_addr (str_append "provider/" a.id)) self own
    ∷ handshakes self own as'

-- What `RegisterProxy` of the library is given, with the port that it announces; the service, the
-- domain and the texts are constants.
pub record Announcement : Type 0 where
  pub id : String
  pub port : ℤ
  pub text : String
  pub host : String

-- `initAutoDiscovery` for the node with an ID whose agent is at an address; `none` is the end of
-- the program, on an address that has no host and port, on a port that is no number of 64 bits, or
-- on an error of the library.
unfoldable pub init_auto_discovery : Bool → Bool → String → String → Option Announcement
unfolding split_host_port atoi
init_auto_discovery resolver server id address =
    if not resolver
    then none
    else (split_host_port address >>= λ hp.
        let r : ℤ × Bool = atoi hp.1 in
        if r.1 && server
        then some (record { id = id; port = r.0; text = str_append "member_" id; host = hp.0 })
        else none)

-- A node that the library has found: its instance, its IPv4 addresses as texts, and its port.
pub record Found : Type 0 where
  pub instance_id : String
  pub addrs : List String
  pub port : ℤ

-- The loop of `startAutoDiscovery` over what is found: the handshakes with the other nodes, and
-- whether it ends without the panic on a node that has no IPv4 address.
unfoldable pub discovered : Member → String → List Found → List ProviderEffect × Bool
unfolding new_pid itoa
discovered self address [] = ([], true)
discovered self address (f ∷ fs) =
    let rest : List ProviderEffect × Bool = discovered self address fs in
    if f.instance_id == self.id then rest else elim (get_elem? f.addrs 0) [
      | none ↦ ([], false)
      | some addr ↦ (
        send_handshake
              (new_pid (str_append addr (str_append ":" (itoa f.port)))
                (str_append "provider/" f.instance_id))
              self (new_pid address (str_append "provider/" self.id))
            ∷ rest.0,
        rest.1,
      )
    ]

-- `start`: the subscription, the handshakes, and the discovery of the library.
unfoldable pub start : SelfManaged → Pid → List ProviderEffect
unfolding handshakes
start s own = subscribe ∷ (handshakes s.self own s.config.bootstrap_members ++ discover ∷ [])

-- `own` is the PID of the context.
unfoldable pub receive :
    SelfManaged → Pid → ProviderRequest → Option (SelfManaged × List ProviderEffect)
unfolding send_members_to_agent start add_members remove_member handle_member_ping
receive s own started =
    let s' : SelfManaged = record s { pid = some own; members = add s.members s.self } in
    some (s', send_members_to_agent s' ++ repeat_ping ∷ start s' own)
receive s own stopped = some (s, stop_ping ∷ unsubscribe ∷ stop_discovery ∷ [])
receive s own (handshake sender m) =
    let (s', es) = add_members s (m ∷ []) in
    some (s', es ++ send_members sender (slice s'.members) ∷ [])
receive s own (members ms) = some (add_members s ms)
receive s own member_ping = some (s, handle_member_ping s own)
receive s own (member_leave addr) = remove_member s (get_by_host s.members addr)
receive s own ping = some (s, [])
receive s own initialized = some (s, [])
receive s own other = some (s, [])

-- `handleEventStream`: an engine that cannot be reached is reported to the provider.
unfoldable pub handle_event_stream : SelfManaged → String → List ProviderEffect
handle_event_stream s addr = send_leave s.pid addr ∷ []
