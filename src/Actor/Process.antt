-- ===== src/Actor/Process.antt =====
-- actor/process.go: one actor process, its batches, crashes, restarts and its end. A receiver is a
-- function on the part of the context that it may change; it returns or panics. What the process
-- does to the world outside it is a log of actions, in order. `fates` says what becomes of a child
-- that is poisoned, `blocked` is the wait for a child that never ends, and `out_of_fuel` marks a
-- chain of restarts longer than the fuel.
pub mod Good
pub mod Fuel
pub mod Ran
pub mod Effect
pub mod Batch
pub mod Announce
pub mod Restart
pub mod Recover
pub mod Crash
pub mod Seen
pub mod Survived
pub mod Survive
pub mod Release
pub mod Ended
pub mod Poison
pub mod GiveUp
pub mod Lost
pub mod Life
pub mod Delivery
pub mod Tests
use distributed_framework.Safemap
use distributed_framework.Safemap.{SafeMap}
use distributed_framework.Common.Dict.{values}
use distributed_framework.Actor.Messages.{
  Message, initialized, started, stopped, pill, user, Envelope, Reason, internal_error, nil_call,
  failure, Event, actor_initialized, actor_started, actor_stopped, actor_max_restarts_exceeded,
  actor_restarted, Act, handled, broadcast, parent_forgets, Fate, child_ends, child_unknown,
  child_hangs, wait_poisoned, inbox_started, inbox_stopped, registry_remove, sleeps, cancelled, Env,
  Outcome, returns, panics, ReceiveFunc, is_pill,
}
use distributed_framework.Actor.Pid.{Pid}
use distributed_framework.Common.{
  ℕ, zero, suc, ◌+◌, ◌%◌, ◌^◌, String, Bool, true, false, Option, none, some, List, [], ◌∷◌, ◌++◌,
  map, nat_eq, if◌then◌else◌, drop, nat_keys, string_keys,
}

pub record Process (R U : Type 0) : Type 0 where
  pub pid : Pid
  pub parent : Option Pid
  pub max_restarts : ℕ
  pub middleware : List (ReceiveFunc R U → ReceiveFunc R U)
  pub env : Env R
  pub message : Message U
  pub sender : Option Pid
  pub restarts : ℕ
  pub mbuffer : List (Envelope U)
  pub inbox_running : Bool
  pub registered : Bool
  pub fates : Pid → Fate
  pub log : List (Act U)

pub data Res (R U : Type 0) : Type 0 where
  done : Process R U → Res R U
  panicked : Reason → Process R U → Res R U
  blocked : Process R U → Res R U
  out_of_fuel : Res R U

infixl 5 ◌>>=◌
abbrev pub ◌>>=◌ : {R U : Type 0} → Res R U → (Process R U → Res R U) → Res R U
done p >>= k = k p
panicked v p >>= k = panicked v p
blocked p >>= k = blocked p
out_of_fuel >>= k = out_of_fuel

-- `restarts` and `max_restarts` are the bit patterns of `int32` values: they are only counted up
-- and compared for equality.
abbrev pub int32_size : ℕ
int32_size = 2 ^ 32

-- The next round of a loop that counts, or the count where it stops.
abbrev pub go_on : {R U : Type 0} → ℕ → Res R U → (Process R U → Res R U × ℕ) → Res R U × ℕ
go_on n (done p) k = k p
go_on n (panicked v p) k = (panicked v p, n)
go_on n (blocked p) k = (blocked p, n)
go_on n out_of_fuel k = (out_of_fuel, n)

module _ {R U : Type 0} where
  abbrev pub act : Process R U → Act U → Process R U
  act p a = record p { log = p.log ++ a ∷ [] }

  pub apply_middleware :
      ReceiveFunc R U → List (ReceiveFunc R U → ReceiveFunc R U) → ReceiveFunc R U
  apply_middleware rcv [] = rcv
  apply_middleware rcv (m ∷ ms) = m (apply_middleware rcv ms)

  -- A call of a receive function with the message and the sender of the context.
  pub call : ReceiveFunc R U → Process R U → Res R U
  call f p = elim (f p.message p.sender p.env) [
    | returns env ↦ done (record p { env = env; log = p.log ++ handled p.message p.sender ∷ [] })
    | panics v env ↦
        panicked v (record p { env = env; log = p.log ++ handled p.message p.sender ∷ [] })
  ]

  -- `for _, pid := range children { <-p.context.engine.Poison(pid).Done() }`
  pub wait_children : List Pid → Process R U → Res R U
  wait_children [] p = done p
  wait_children (pid ∷ pids) p =
      let q : Process R U = act p (wait_poisoned pid) in
      let gone : Process R U = record q {
        env = record q.env { children = Safemap.remove q.env.children pid.id };
      } in
      elim (p.fates pid) [
        | child_ends ↦ wait_children pids gone
        | child_unknown ↦ wait_children pids q
        | child_hangs ↦ blocked q
      ]

  -- `p.context.parentCtx.children.Delete(p.pid.ID)`
  pub forget : Process R U → Process R U
  forget p = elim p.parent [ none ↦ p | some _ ↦ act p (parent_forgets p.pid.id) ]

  -- The part of `cleanup` before the receiver is told: the parent forgets the process, the children
  -- are poisoned one after the other, each awaited, the inbox is stopped, the registry forgets it.
  pub release : Process R U → Res R U
  unfolding wait_children forget
  release p = wait_children (values p.env.children.entries) (forget p) >>= λ q. done (record q {
    inbox_running = false;
    registered = false;
    message = stopped;
    log = q.log ++ inbox_stopped ∷ registry_remove q.pid ∷ [];
  })

  -- The deferred `cancel()`: a nil function panics, over any other panic.
  pub defer_cancel : Option ℕ → Res R U → Res R U
  defer_cancel (some c) (done p) = done (act p (cancelled c))
  defer_cancel (some c) (panicked v p) = panicked v (act p (cancelled c))
  defer_cancel none (done p) = panicked nil_call p
  defer_cancel none (panicked v p) = panicked nil_call p
  defer_cancel _ (blocked p) = blocked p
  defer_cancel _ out_of_fuel = out_of_fuel

-- `receive` is the receiver's method.
module _ {R U : Type 0} (receive : ReceiveFunc R U) where
  -- `p.context.receiver.Receive(p.context)`
  abbrev pub call_direct : Process R U → Res R U
  call_direct = call receive

  -- `applyMiddleware(recv.Receive, p.Opts.Middleware...)(p.context)`
  abbrev pub call_wrapped : Process R U → Res R U
  call_wrapped p = call (apply_middleware receive p.middleware) p

  pub invoke_msg : Process R U → Envelope U → Res R U
  unfolding call apply_middleware is_pill
  invoke_msg p m =
      if is_pill m.msg
      then done p
      else (let q : Process R U = record p { message = m.msg; sender = m.sender } in
          elim p.middleware [ [] ↦ call_direct q | _ ∷ _ ↦ call_wrapped q ])

  pub cleanup : Process R U → Option ℕ → Res R U
  unfolding call apply_middleware release defer_cancel
  cleanup p cancel =
      defer_cancel cancel
        (release p >>= call_wrapped >>= λ q. done (act q (broadcast (actor_stopped q.pid))))

  -- `for _, m := range msgsToProcess { p.invokeMsg(m) }`
  pub drain : List (Envelope U) → Process R U → Res R U
  drain [] p = done p
  drain (m ∷ ms) p = invoke_msg p m >>= drain ms

  -- The loop of `Invoke` over the messages that are left, with `nproc` and `processed`; the number
  -- is `nproc` when the loop stops.
  pub invoke_loop : List (Envelope U) → List (Envelope U) → ℕ → ℕ → Process R U → Res R U × ℕ
  unfolding drain cleanup invoke_msg
  invoke_loop msgs [] nproc processed p = (done p, nproc)
  invoke_loop msgs (m ∷ rest) nproc processed p = elim m.msg [
    | pill cancel graceful ↦ (
      (if graceful then drain (drop processed msgs) p else done p) >>= λ q. cleanup q cancel,
      nproc + 1,
    )
    | _ ↦
        go_on (nproc + 1) (invoke_msg p m) λ q. invoke_loop msgs rest (nproc + 1) (processed + 1) q
  ]

  -- `restart` is `p.Start()`, with less fuel.
  module _ (restart : Process R U → Res R U) where
    pub try_restart : Reason → Process R U → Res R U
    unfolding cleanup
    try_restart internal_error p = restart (act p sleeps)
    try_restart v p =
        if nat_eq p.restarts p.max_restarts
        then cleanup (act p (broadcast (actor_max_restarts_exceeded p.pid))) none
        else (let n : ℕ = (p.restarts + 1) % int32_size in
            restart (record p {
              restarts = n;
              log = p.log ++ broadcast (actor_restarted p.pid v n) ∷ sleeps ∷ [];
            }))

    -- The deferred function of `Invoke`: the messages that were not taken up are kept.
    pub recover_invoke : List (Envelope U) → Reason → Process R U → Res R U
    unfolding call try_restart
    recover_invoke rest v p = call_direct (record p { message = stopped }) >>= λ q.
        try_restart v (record q { mbuffer = rest })

    pub invoke : List (Envelope U) → Process R U → Res R U
    unfolding invoke_loop recover_invoke
    invoke msgs p =
        let (r, nproc) = invoke_loop msgs msgs 0 0 p in
        elim r [
          | done q ↦ done q
          | panicked v q ↦ recover_invoke (drop nproc msgs) v q
          | blocked q ↦ blocked q
          | out_of_fuel ↦ out_of_fuel
        ]

    -- A system message to the receiver, and the event that follows it.
    pub announce : Message U → (Pid → Event) → Process R U → Res R U
    unfolding call apply_middleware
    announce m ev p =
        call_wrapped (record p { message = m }) >>= λ q. done (act q (broadcast (ev q.pid)))

    pub replay : Process R U → Res R U
    unfolding invoke
    replay p = elim p.mbuffer [
      | [] ↦ done p
      | _ ∷ _ ↦ invoke p.mbuffer p >>= λ q. done (record q { mbuffer = [] })
    ]

    -- The deferred function of `Start`.
    pub recover_start : Res R U → Res R U
    unfolding call try_restart
    recover_start (panicked v p) = call_direct (record p { message = stopped }) >>= try_restart v
    recover_start r = r

    -- `produce` is what the producer returns.
    pub start_body : R → Process R U → Res R U
    unfolding announce replay recover_start
    start_body produce p = recover_start (
        announce initialized actor_initialized
          (record p { env = record p.env { receiver = produce } })
        >>= announce started actor_started
        >>= replay
        >>= λ q. done (act (record q { inbox_running = true }) inbox_started))

  pub start : R → ℕ → Process R U → Res R U
  start produce zero p = out_of_fuel
  start produce (suc f) p = start_body (start produce f) produce p
