-- ===== src/Cluster/Messages.antt =====
-- cluster/agent.go, cluster/event.go and cluster/cluster.proto: the messages of an agent, and what
-- it asks of the engine.
use distributed_framework.Actor.Pid.{Pid}
use distributed_framework.Cluster.Member.{Member}
use distributed_framework.Cluster.Activation.{ActivationConfig}
use distributed_framework.Common.{String, Bool, Option, List, nat_keys, string_keys}

-- The messages of cluster/cluster.proto that agents send one another.
pub data Wire : Type 0 where
  actor_topology : List Pid → Wire
  activation : Option Pid → Wire
  deactivation : Pid → Wire

pub data ClusterEvent : Type 0 where
  member_join_event member_leave_event : Member → ClusterEvent
  activation_event deactivation_event : Pid → ClusterEvent

pub record ActivationResponse : Type 0 where
  pub pid : Option Pid
  pub success : Bool

pub data Reply : Type 0 where
  pid_reply : Option Pid → Reply
  pids_reply : List Pid → Reply
  members_reply : List Member → Reply
  kinds_reply : List String → Reply
  activation_reply : ActivationResponse → Reply

-- What the agent asks of the engine.
pub data Effect : Type 0 where
  send : Pid → Wire → Effect
  broadcast : ClusterEvent → Effect
  respond : Reply → Effect
  poison : Pid → Effect
  spawn : String → String → Effect

-- What the network answers to an activation request: an error or a timeout, a message of another
-- type, or a response.
pub data Answer : Type 0 where
  failed other_type : Answer
  answered : ActivationResponse → Answer

pub data Request : Type 0 where
  started_msg stopped_msg get_members get_kinds : Request
  actor_topology_msg : List Pid → Request
  members_msg : List Member → Request
  activation_msg deactivation_msg deactivate : Pid → Request
  activate : String → ActivationConfig → Request
  activation_request : String → String → Request
  get_active : String → String → Request
