-- ===== src/Actor/Messages.antt =====
-- actor/types.go, actor/process.go and actor/event.go: the messages of a process, what a receiver
-- may do with one, and what a process does to the world outside it.
use distributed_framework.Safemap.{SafeMap}
use distributed_framework.Actor.Pid.{Pid}
use distributed_framework.Common.{ℕ, String, Bool, true, false, Option, nat_keys, string_keys}

-- The messages that a process handles; `pill` is `poisonPill`, whose `cancel` may be a nil
-- function.
pub data Message (U : Type 0) : Type 0 where
  initialized started stopped : Message U
  pill : Option ℕ → Bool → Message U
  user : U → Message U

pub record Envelope (U : Type 0) : Type 0 where
  pub msg : Message U
  pub sender : Option Pid

-- A panic's value: an `*InternalError`, another value, or the run-time error of a nil function.
pub data Reason : Type 0 where
  internal_error nil_call : Reason
  failure : ℕ → Reason

pub data Event : Type 0 where
  actor_initialized actor_started actor_stopped actor_max_restarts_exceeded : Pid → Event
  actor_restarted : Pid → Reason → ℕ → Event

-- `handled` is a call of the receiver; `wait_poisoned` sends a pill to a child and waits for it.
pub data Act (U : Type 0) : Type 0 where
  handled : Message U → Option Pid → Act U
  broadcast : Event → Act U
  parent_forgets : String → Act U
  wait_poisoned : Pid → Act U
  inbox_started inbox_stopped : Act U
  registry_remove : Pid → Act U
  sleeps : Act U
  cancelled : ℕ → Act U

-- What a receiver may change: its own fields and the children of its context.
pub record Env (R : Type 0) : Type 0 where
  pub receiver : R
  pub children : SafeMap String Pid

pub data Outcome (R : Type 0) : Type 0 where
  returns : Env R → Outcome R
  panics : Reason → Env R → Outcome R

abbrev pub ReceiveFunc : Type 0 → Type 0 → Type 0
ReceiveFunc R U = Message U → Option Pid → Env R → Outcome R

unfoldable pub is_pill : {U : Type 0} → Message U → Bool
is_pill (pill c g) = true
is_pill _ = false

-- What becomes of the pill that a cleanup sends to a child and waits for: the child cleans up and
-- deletes itself from its parent's children, or it is not registered and the wait ends at once, or
-- the wait never ends.
pub data Fate : Type 0 where
  child_ends child_unknown child_hangs : Fate
