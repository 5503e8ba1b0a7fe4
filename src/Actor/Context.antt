-- ===== src/Actor/Context.antt =====
-- actor/context.go: what a receiver does through its context. A parent context is its PID, and the
-- receiver, the engine and Go's context are values that the context only carries.
pub mod Laws
use distributed_framework.Common.Dict.{values}
use distributed_framework.Safemap.{SafeMap, new as new_map, set, get}
use distributed_framework.Actor.Pid.{Pid}
use distributed_framework.Actor.Engine.{Engine, Letter, Outside, send, spawn, get_by_id}
use Prim.Native.String.{◌++◌ as str_append}
use distributed_framework.Common.{
  ℕ, String, Option, none, some, List, [], ◌++◌, nat_keys, string_keys,
}

pub record Context (M : Type 0) : Type 0 where
  pub pid : Pid
  pub sender : Option Pid
  pub message : Letter M
  pub parent : Option Pid
  pub children : SafeMap String Pid

-- `first` is the message that the context has before any, which is nil in the source.
unfoldable pub new_context : {M : Type 0} → Pid → Letter M → Context M
unfolding new_map
new_context pid first = record {
  pid = pid;
  sender = none;
  message = first;
  parent = none;
  children = new_map;
}

unfoldable pub get_pid : Engine → String → Option Pid
unfolding get_by_id
get_pid e id = get_by_id e.registry id

module _ {M : Type 0} where
  unfoldable pub respond : ℕ → Engine → Context M → Letter M → Option (List (Outside M))
  unfolding send
  respond fuel e c msg = elim c.sender [ none ↦ some [] | some to ↦ send fuel e (some to) msg none ]

  unfoldable pub send_from :
      ℕ → Engine → Context M → Option Pid → Letter M → Option (List (Outside M))
  unfolding send
  send_from fuel e c pid msg = send fuel e pid msg (some c.pid)

  unfoldable pub forward : ℕ → Engine → Context M → Option Pid → Option (List (Outside M))
  unfolding send
  forward fuel e c pid = send fuel e pid c.message (some c.pid)

  -- The engine, the context, the child's own context, which has its PID and its parent, and what
  -- happens outside. `random` replaces an empty ID; `first` is the message of the child's context,
  -- which is nil until it is invoked.
  unfoldable pub spawn_child :
      ℕ
      → Engine
      → Context M
      → String
      → String
      → String
      → Letter M
      → Engine × Context M × Context M × Option (List (Outside M))
  unfolding spawn set new_context
  spawn_child fuel e c name id random first =
      let r = spawn {M = M} fuel e (str_append c.pid.id (str_append "/" name)) id random in
      let proc : Context M = record (new_context r.1 first) { parent = some c.pid } in
      (r.0, record c { children = set c.children (r.1).id (r.1) }, proc, r.2)

  unfoldable pub child : Context M → String → Option Pid
  unfolding get
  child c id = get c.children id

  -- The children in the order of the map's range.
  unfoldable pub children_of : Context M → List Pid
  children_of c = values c.children.entries
