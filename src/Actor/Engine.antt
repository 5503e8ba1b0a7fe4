-- ===== src/Actor/Engine.antt =====
-- actor/engine.go, actor/registry.go and actor/response.go: who is known to an engine, and where a
-- message goes. A processer is its PID: what it does with a message is not the engine's matter.
pub mod Routing
pub mod Fresh
use distributed_framework.Common.Dict.{Dict, lookup, has, insert, delete}
use distributed_framework.Actor.Pid.{Pid, new_pid}
use Prim.Native.String.{◌++◌ as str_append, len as str_len}
use distributed_framework.Common.{
  ℕ, zero, suc, String, Bool, false, Option, none, some, List, [], ◌∷◌, ◌++◌, nat_eq, if◌then◌else◌,
  ◌==◌, nat_keys, string_keys, ◌>>=◌,
}

abbrev pub local_lookup_addr : String
local_lookup_addr = "local"

-- `Registry.lookup`: the processers by the IDs of their PIDs.
pub record Registry : Type 0 where
  pub entries : Dict String Pid

-- The address of the remote, where there is one, and the PID of the event stream, once there is
-- one.
pub record Engine : Type 0 where
  pub registry : Registry
  pub address : String
  pub remote : Option String
  pub event_stream : Option Pid

-- A message: an actor's own, an event of the engine, or one of the event stream's. `M` are the
-- actors' messages.
mutual
  pub data Letter (M : Type 0) : Type 0 where
    plain : M → Letter M
    pill : Bool → Letter M
    event : EngineEvent M → Letter M
    event_sub event_unsub : Option Pid → Letter M

  pub data EngineEvent (M : Type 0) : Type 0 where
    dead_letter : Option Pid → Letter M → Option Pid → EngineEvent M
    remote_missing : Pid → Letter M → Option Pid → EngineEvent M
    duplicate_id : Pid → EngineEvent M

-- What happens outside the engine: a processer gets a message or is started, the remote is given a
-- message, or the pill's context is canceled.
pub data Outside (M : Type 0) : Type 0 where
  process_send : Pid → Letter M → Option Pid → Outside M
  process_start : Pid → Outside M
  remote_send : Pid → Letter M → Option Pid → Outside M
  cancel_context : Outside M

unfoldable pub new_registry : Registry
new_registry = record { entries = [] }

unfoldable pub get_by_id : Registry → String → Option Pid
get_by_id r id = lookup id r.entries

unfoldable pub get_pid : Registry → String → String → Option Pid
unfolding get_by_id
get_pid r kind id = get_by_id r (str_append kind (str_append "/" id))

unfoldable pub get : Registry → Option Pid → Option Pid
get r none = none
get r (some pid) = lookup pid.id r.entries

unfoldable pub remove : Registry → Pid → Registry
remove r pid = record { entries = delete pid.id r.entries }

unfoldable pub is_local_message : Engine → Option Pid → Bool
is_local_message e none = false
is_local_message e (some pid) = e.address == pid.address

module _ {M : Type 0} where
  -- The lookup of `SendLocal`: the processer's `Send`, or else the dead letter.
  unfoldable pub local_or :
      Engine
      → Option Pid
      → Letter M
      → Option Pid
      → Option (List (Outside M))
      → Option (List (Outside M))
  unfolding get
  local_or e pid msg sender dead = elim (get e.registry pid) [
    | none ↦ dead
    | some proc ↦ some (process_send proc msg sender ∷ [])
  ]

  -- `Engine.send`, which `Send` and `SendWithSender` call. It calls `SendLocal`, which calls
  -- `BroadcastEvent`, which calls `send` with the event stream, whose PID may be nil; `fuel`
  -- bounds the calls, and `none` is that they have not ended.
  unfoldable pub send : ℕ → Engine → Option Pid → Letter M → Option Pid → Option (List (Outside M))
  unfolding local_or is_local_message
  send zero e pid msg sender = none
  send (suc fuel) e none msg sender = some []
  send (suc fuel) e (some pid) msg sender =
      let dead = send fuel e e.event_stream (event (dead_letter (some pid) msg sender)) none in
      let missing = send fuel e e.event_stream (event (remote_missing pid msg sender)) none in
      if is_local_message e (some pid)
      then local_or e (some pid) msg sender dead
      else elim e.remote [ none ↦ missing | some r ↦ some (remote_send pid msg sender ∷ []) ]

  unfoldable pub broadcast_event : ℕ → Engine → Letter M → Option (List (Outside M))
  unfolding send
  broadcast_event fuel e msg = send fuel e e.event_stream msg none

  unfoldable pub send_local :
      ℕ → Engine → Option Pid → Letter M → Option Pid → Option (List (Outside M))
  unfolding local_or broadcast_event
  send_local fuel e pid msg sender =
      local_or e pid msg sender (broadcast_event fuel e (event (dead_letter pid msg sender)))

  -- `Registry.add`: a duplicate is an event, and is neither stored nor started.
  unfoldable pub add : ℕ → Engine → Pid → Engine × Option (List (Outside M))
  unfolding broadcast_event
  add fuel e pid =
      if has pid.id e.registry.entries
      then (e, broadcast_event fuel e (event (duplicate_id pid)))
      else (
        record e { registry = record { entries = insert pid.id pid e.registry.entries } },
        some (process_start pid ∷ []),
      )

  -- `Spawn`: the PID that `newProcess` makes of the kind and the ID; `random` is the number that
  -- an empty ID is replaced with.
  unfoldable pub spawn :
      ℕ → Engine → String → String → String → Engine × Pid × Option (List (Outside M))
  unfolding add new_pid
  spawn fuel e kind id random =
      let used : String = if nat_eq (str_len id) 0 then random else id in
      let pid : Pid = new_pid e.address (str_append kind (str_append "/" used)) in
      let r = add fuel e pid in (r.0, pid, r.1)

  -- `sendPoisonPill`, which `Stop`, `Poison` and `PoisonCtx` call.
  unfoldable pub send_poison_pill : ℕ → Engine → Bool → Option Pid → Option (List (Outside M))
  unfolding get broadcast_event send_local
  send_poison_pill fuel e graceful pid = elim (get e.registry pid) [
    | none ↦ broadcast_event fuel e (event (dead_letter pid (pill graceful) none)) >>= λ out.
        some (out ++ cancel_context ∷ [])
    | some proc ↦ send_local fuel e pid (pill graceful) none
  ]

  unfoldable pub subscribe : ℕ → Engine → Option Pid → Option (List (Outside M))
  unfolding send
  subscribe fuel e pid = send fuel e e.event_stream (event_sub pid) none

  unfoldable pub unsubscribe : ℕ → Engine → Option Pid → Option (List (Outside M))
  unfolding send
  unsubscribe fuel e pid = send fuel e e.event_stream (event_unsub pid) none

  -- `Request`, with the number that `NewResponse` draws: the response is registered under its own
  -- PID and is the sender.
  unfoldable pub request :
      ℕ → Engine → Option Pid → Letter M → String → Engine × Pid × Option (List (Outside M))
  unfolding add send new_pid
  request fuel e pid msg drawn =
      let resp : Pid = new_pid e.address (str_append "response" (str_append "/" drawn)) in
      let r = add fuel e resp in
      (r.0, resp, (do out ← r.1; out' ← send fuel r.0 pid msg (some resp); some (out ++ out')))

-- The engine before its event stream is there.
unfoldable pub bare_engine : Option String → Engine
unfolding new_registry
bare_engine remote = record {
  registry = new_registry;
  address = elim remote [ none ↦ local_lookup_addr | some a ↦ a ];
  remote = remote;
  event_stream = none;
}

-- `NewEngine`. `started` is whether the remote starts without an error, `id` the number that the
-- event stream draws.
unfoldable pub new_engine : Option String → Bool → String → Option Engine
unfolding spawn bare_engine
new_engine remote started id =
    let r : Engine × Pid × Option (List (Outside Unit)) =
      spawn 1 (bare_engine remote) "eventstream" "" id in
    let ready : Engine = record (r.0) { event_stream = some (r.1) } in
    elim remote [ none ↦ some ready | some a ↦ if started then some ready else none ]

-- `Response.Result`: the first message that arrived before the timeout, and the response is not
-- registered any more.
unfoldable pub result : {M : Type 0} → Engine → Pid → Option M → Engine × Option M
unfolding remove
result e resp arrived = (record e { registry = remove e.registry resp }, arrived)
