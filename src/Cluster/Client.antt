-- ===== src/Cluster/Client.antt =====
-- cluster/cluster.go: the node of a cluster, and what its functions ask of its agent.
pub mod Calls
use distributed_framework.Actor.Pid.{Pid, new_pid}
use distributed_framework.Cluster.Member.{Member, agent_pid}
use distributed_framework.Cluster.Activation.{ActivationConfig, Kind, new_kind}
use distributed_framework.Cluster.Agent.{contains_name, used_id}
use distributed_framework.Cluster.Messages.{
  Request, Reply, pid_reply, pids_reply, members_reply, kinds_reply, activate, deactivate,
  get_members, get_kinds, get_active,
}
use Prim.Native.String.{◌++◌ as str_append}
use distributed_framework.Common.{
  ◌>>=◌, ℕ, String, Bool, true, false, Option, none, some, List, [], ◌∷◌, ◌++◌, map, if◌then◌else◌,
  nat_keys, string_keys,
}

-- `V` are the providers and `E` the engines, which the configuration only carries. An engine may
-- be nil. Durations are in nanoseconds.
pub record Config (V E : Type 0) : Type 0 where
  pub listen_addr : String
  pub id : String
  pub region : String
  pub engine : Option E
  pub provider : V
  pub request_timeout : ℕ

-- `listen_addr`, `id` and the default provider are drawn or made elsewhere.
unfoldable pub new_config : {V E : Type 0} → String → String → V → Config V E
new_config listen_addr id provider = record {
  listen_addr = listen_addr;
  id = id;
  region = "default";
  engine = none;
  provider = provider;
  request_timeout = 1000000000;
}

unfoldable pub with_request_timeout : {V E : Type 0} → Config V E → ℕ → Config V E
with_request_timeout c d = record c { request_timeout = d }

unfoldable pub with_provider : {V E : Type 0} → Config V E → V → Config V E
with_provider c p = record c { provider = p }

unfoldable pub with_engine : {V E : Type 0} → Config V E → E → Config V E
with_engine c e = record c { engine = some e }

unfoldable pub with_listen_addr : {V E : Type 0} → Config V E → String → Config V E
with_listen_addr c addr = record c { listen_addr = addr }

unfoldable pub with_id : {V E : Type 0} → Config V E → String → Config V E
with_id c id = record c { id = id }

unfoldable pub with_region : {V E : Type 0} → Config V E → String → Config V E
with_region c region = record c { region = region }

-- The node: `P` are the producers of its kinds, and `engine_address` is the address of its engine.
pub record Cluster (P : Type 0) : Type 0 where
  pub id : String
  pub region : String
  pub engine_address : String
  pub agent : Option Pid
  pub provider : Option Pid
  pub is_started : Bool
  pub kinds : List (Kind P)

-- What the node asks of its engine.
pub data ClusterEffect : Type 0 where
  spawn_agent spawn_provider : Pid → ClusterEffect
  spawn_actor : Pid → ClusterEffect
  send_activation : Pid → Pid → ClusterEffect
  send_request : Option Pid → Request → ClusterEffect
  poison_and_wait : Option Pid → ClusterEffect

-- The answer of a request: an error or a timeout, a reply of the agent, or a message of another
-- type.
pub data Response : Type 0 where
  no_answer strange : Response
  replied : Reply → Response

-- A request to the agent, with what comes of its answer.
unfoldable pub members_of : Response → List Member
members_of (replied (members_reply ms)) = ms
members_of other = []

unfoldable pub has_kind : String → Response → Bool
unfolding contains_name
has_kind name (replied (kinds_reply ks)) = contains_name ks name
has_kind name other = false

-- A list with one nil PID stands for none.
unfoldable pub get_active_by_kind : Response → List (Option Pid)
get_active_by_kind (replied (pids_reply [])) = none ∷ []
get_active_by_kind (replied (pids_reply (p ∷ ps))) = map some (p ∷ ps)
get_active_by_kind other = none ∷ []

unfoldable pub get_active_by_id : Response → Option Pid
get_active_by_id (replied (pid_reply p)) = p
get_active_by_id other = none

module _ {P : Type 0} where
  -- `made` is the address of the engine that is made where the configuration has none; there is
  -- none where making it fails. An engine is its address.
  unfoldable pub new : {V : Type 0} → Config V String → Option String → Option (Cluster P)
  new config made = elim config.engine [
    | some address ↦ some (node address)
    | none ↦ made >>= λ address. some (node address)
  ]
    where
      node : String → Cluster P
      node address = record {
        id = config.id;
        region = config.region;
        engine_address = address;
        agent = none;
        provider = none;
        is_started = false;
        kinds = [];
      }

  -- `drawn1` and `drawn2` are the IDs that the engine draws where the node has none.
  unfoldable pub start : String → String → Cluster P → Cluster P × List ClusterEffect
  unfolding new_pid used_id
  start drawn1 drawn2 c =
      let agent : Pid = new_pid c.engine_address (str_append "cluster/" (used_id drawn1 c.id)) in
      let provider : Pid =
        new_pid c.engine_address (str_append "provider/" (used_id drawn2 c.id)) in
      (
        record c { agent = some agent; provider = some provider; is_started = true },
        spawn_agent agent ∷ spawn_provider provider ∷ [],
      )

  unfoldable pub stop : Cluster P → List ClusterEffect
  stop c = poison_and_wait c.agent ∷ poison_and_wait c.provider ∷ []

  -- `pid` is what the engine's `Spawn` returns, and `answer` the agent's answer.
  unfoldable pub spawn : Cluster P → Pid → Response → Pid × List ClusterEffect
  unfolding members_of agent_pid
  spawn c pid answer = (
    pid,
    spawn_actor pid
        ∷ send_request c.agent get_members
        ∷ map (λ m. send_activation (agent_pid m) pid) (members_of answer),
  )

  unfoldable pub activate_kind :
      Cluster P → String → ActivationConfig → Response → Option Pid × List ClusterEffect
  activate_kind c kind config answer =
      (pid_of answer, send_request c.agent (activate kind config) ∷ [])
    where
      pid_of : Response → Option Pid
      pid_of (replied (pid_reply p)) = p
      pid_of other = none

  unfoldable pub deactivate_pid : Cluster P → Pid → List ClusterEffect
  deactivate_pid c pid = send_request c.agent (deactivate pid) ∷ []

  unfoldable pub register_kind : Cluster P → String → P → Cluster P
  unfolding new_kind
  register_kind c kind producer =
      if c.is_started then c else record c { kinds = c.kinds ++ new_kind kind producer ∷ [] }

  unfoldable pub names_of : List (Kind P) → List String
  names_of = map (λ k. k.name)

  unfoldable pub has_kind_local : Cluster P → String → Bool
  unfolding contains_name names_of
  has_kind_local c name = contains_name (names_of c.kinds) name

  unfoldable pub member : Cluster P → Member
  unfolding names_of
  member c = record {
    id = c.id;
    host = c.engine_address;
    region = c.region;
    kinds = names_of c.kinds;
  }

  -- A node whose agent is not there yet has no address: reading it is a nil pointer.
  unfoldable pub address : Cluster P → Option String
  address c = c.agent >>= λ pid. some (pid.address)

  unfoldable pub kinds_to_string : Cluster P → List String
  unfolding names_of
  kinds_to_string c = names_of c.kinds
