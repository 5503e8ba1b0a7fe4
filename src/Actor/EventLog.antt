-- ===== src/Actor/EventLog.antt =====
-- actor/event.go: how the event stream logs the events that say so themselves.
use distributed_framework.Actor.Pid.{Pid}
use distributed_framework.Common.{
  ℕ, String, Option, none, some, List, [], ◌∷◌, nat_keys, string_keys,
}

-- The events of actor/event.go. A reason is a value of the type `V`, a message one of the type
-- `M`; a time stamp is in nanoseconds and a stack trace is a text.
pub data ActorEvent (V M : Type 0) : Type 0 where
  actor_started actor_initialized actor_stopped actor_max_restarts_exceeded :
      Option Pid → ℕ → ActorEvent V M
  actor_restarted : Option Pid → ℕ → String → V → ℕ → ActorEvent V M
  actor_duplicate_id : Option Pid → ActorEvent V M
  engine_remote_missing : Option Pid → Option Pid → M → ActorEvent V M
  remote_unreachable : String → ActorEvent V M
  dead_letter : Option Pid → M → Option Pid → ActorEvent V M

pub data Level : Type 0 where
  level_debug level_error : Level

pub data Attribute (V : Type 0) : Type 0 where
  pid : Option Pid → Attribute V
  text : String → Attribute V
  reason : V → Attribute V
  number : ℕ → Attribute V

pub record LogLine (V : Type 0) : Type 0 where
  pub level : Level
  pub message : String
  pub attributes : List (String × Attribute V)

-- `GetID` of a nil PID is the empty text.
abbrev pub get_id : Option Pid → String
get_id none = ""
get_id (some p) = p.id

-- `none` is an event that is no `EventLogger`.
unfoldable pub log : {V M : Type 0} → ActorEvent V M → Option (LogLine V)
log (actor_started p t) =
    some (record { level = level_debug; message = "Actor 已启动"; attributes = ("pid", pid p) ∷ [] })
log (actor_initialized p t) =
    some (record { level = level_debug; message = "Actor 已初始化"; attributes = ("pid", pid p) ∷ [] })
log (actor_stopped p t) =
    some (record { level = level_debug; message = "Actor 已停止"; attributes = ("pid", pid p) ∷ [] })
log (actor_restarted p t stack v restarts) = some (record {
  level = level_error;
  message = "Actor 崩溃并重启";
  attributes =
      ("pid", text (get_id p))
      ∷ ("stack", text stack)
      ∷ ("reason", reason v)
      ∷ ("restarts", number restarts)
      ∷ [];
})
log (actor_max_restarts_exceeded p t) = some (record {
  level = level_error;
  message = "Actor 崩溃次数过多";
  attributes = ("pid", text (get_id p)) ∷ [];
})
log (actor_duplicate_id p) = some (record {
  level = level_error;
  message = "Actor 名称已被占用";
  attributes = ("pid", text (get_id p)) ∷ [];
})
log (engine_remote_missing target sender m) = some (record {
  level = level_error;
  message = "引擎没有远程模块";
  attributes = ("sender", text (get_id target)) ∷ [];
})
log (remote_unreachable addr) = none
log (dead_letter target m sender) = none
