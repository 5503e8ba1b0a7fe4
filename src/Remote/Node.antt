-- ===== src/Remote/Node.antt =====
-- remote/remote.go: the remote of an engine, and its life.
pub mod Life
use distributed_framework.Actor.Pid.{Pid}
use distributed_framework.Remote.Writer.{StreamDeliver}
use distributed_framework.Common.{
  ℕ, String, Bool, true, false, Option, none, some, if◌then◌else◌, nat_keys, string_keys,
}

-- `config.TLSConfig` is of the library crypto/tls, of the type `T`; it may be nil.
pub record Config (T : Type 0) : Type 0 where
  pub tls_config : Option T
  pub buff_size : ℕ

module _ {T : Type 0} where
  unfoldable pub new_config : Config T
  new_config = record { tls_config = none; buff_size = 0 }

  unfoldable pub with_tls : Config T → T → Config T
  with_tls c tlsconf = record c { tls_config = some tlsconf }

  unfoldable pub with_buffer_size : Config T → ℕ → Config T
  with_buffer_size c size = record c { buff_size = size }

pub data State : Type 0 where
  state_invalid state_initialized state_running state_stopped : State

pub record Remote (T : Type 0) : Type 0 where
  pub addr : String
  pub config : Config T
  pub stream_router_pid : Option Pid
  pub state : State
  pub listening : Bool

pub data StartError : Type 0 where
  already_started listen_failed register_failed : StartError

module _ {T : Type 0} where
  unfoldable pub new : String → Config T → Remote T
  new addr config = record {
    addr = addr;
    config = config;
    stream_router_pid = none;
    state = state_initialized;
    listening = false;
  }

  -- `listen` and `register` are whether the network and the library answer without an error, and
  -- `router` the PID that the engine spawns.
  unfoldable pub start : Bool → Bool → Pid → Remote T → Remote T × Option StartError
  start listen register router r = go r.state
    where
      running : Remote T
      running = record r { state = state_running }

      go : State → Remote T × Option StartError
      go state_invalid = (r, some already_started)
      go state_running = (r, some already_started)
      go state_stopped = (r, some already_started)
      go state_initialized =
          if listen
          then (if register
              then (record running { stream_router_pid = some router; listening = true }, none)
              else (running, some register_failed))
          else (running, some listen_failed)

  -- Whether there is a listener to wait for. On a remote whose start failed, the source waits on a
  -- channel that is nil, for ever: `none`.
  unfoldable pub stop : Remote T → Option (Remote T × Bool)
  stop r = go r.state
    where
      go : State → Option (Remote T × Bool)
      go state_invalid = some (r, false)
      go state_initialized = some (r, false)
      go state_stopped = some (r, false)
      go state_running =
          if r.listening
          then some (record r { state = state_stopped; listening = false }, true)
          else none

  -- `Remote.Send`: the message that the engine sends to the router.
  unfoldable pub send :
      {M : Type 0} → Remote T → Pid → M → Option Pid → Option Pid × StreamDeliver M
  send r pid msg sender = (r.stream_router_pid, record { sender = sender; target = pid; msg = msg })

  unfoldable pub address : Remote T → String
  address r = r.addr
