-- ===== src/Actor/Process/Fuel.antt =====
-- Restarts end: a process whose receiver raises no `*InternalError` needs no more fuel than its
-- restarts that are left, and one.
use distributed_framework.Actor.Pid.{Pid}
use distributed_framework.Actor.Process.{
  Process, Res, done, panicked, out_of_fuel, ◌>>=◌, int32_size, apply_middleware, cleanup,
  invoke_loop, try_restart, act, recover_invoke, invoke, announce, replay, recover_start,
  start_body, start, blocked,
}
use distributed_framework.Actor.Messages.{
  nil_call, failure, internal_error, Message, ReceiveFunc, Envelope, Reason, broadcast, failure,
  actor_restarted, actor_max_restarts_exceeded, stopped, Event, initialized, sleeps,
  actor_initialized, started, actor_started,
}
use distributed_framework.Common.{
  ℕ, ◌+◌, ◌%◌, ◌≤◌, ◌<◌, refl, ◌≢◌, nat_keys, string_keys, none, List, [], ◌∷◌, arith,
  if◌then◌else◌, drop, zero, suc, ◌++◌, ℕ_discrete, nat_eq, nat_eq_iff, nat_eq_of_ne,
}
use distributed_framework.Actor.Process.Good.{
  budget, budget_step, InRange, Plain, Good, >>=-Good, Good-ends, call-Good, call_wrapped-Good,
  cleanup-Good, invoke_loop-Good,
}

module _ {R U : Type 0} (receive : ReceiveFunc R U) (ms : List (ReceiveFunc R U → ReceiveFunc R U))
    (plain : Plain receive) (plain_wrapped : Plain (apply_middleware receive ms)) where
  -- What is known of the restart with less fuel: it ends well from fewer restarts left than `b`.
  module _ (restart : Process R U → Res R U) (b : ℕ)
      (again : (p : Process R U)
        → budget p < b
        → InRange ms p
        → Good ms (budget p) (restart p)) where
    weaken : (c d : ℕ) (res : Res R U) → c ≤ d → Good ms c res → Good ms d res
    weaken c d (done p) le g = (omega arith, g.1)
    weaken c d (panicked v p) le g = (omega arith, g.1, g.2)
    weaken c d (blocked p) le g = g
    weaken c d out_of_fuel le g = g

    restarted : Process R U → Reason → Process R U
    restarted p v = record p {
      restarts = (p.restarts + 1) % int32_size;
      log =
          p.log
          ++ broadcast (actor_restarted p.pid v ((p.restarts + 1) % int32_size)) ∷ sleeps ∷ [];
    }

    -- A panic that counts.
    crash-Good :
        (v : Reason) (p : Process R U)
        → budget p ≤ b
        → InRange ms p
        → Good ms b (
            if nat_eq p.restarts p.max_restarts
            then cleanup receive (act p (broadcast (actor_max_restarts_exceeded p.pid))) none
            else restart (restarted p v))
    unfolding restarted
    crash-Good v p h r = elim (ℕ_discrete p.restarts p.max_restarts) [
      | yes e ↦
          rw ((nat_eq_iff p.restarts p.max_restarts).1 e)
            (cleanup-Good receive ms plain plain_wrapped _ none b h r)
      | no ne ↦ rw (nat_eq_of_ne p.restarts p.max_restarts ne) (
          weaken (budget (restarted p v)) b _
            (omega (arith, budget_step p.restarts p.max_restarts r.0 r.1 ne))
            (again (restarted p v) (omega (arith, budget_step p.restarts p.max_restarts r.0 r.1 ne))
              (omega arith, r.1, r.2, r.3)))
    ]

    try_restart-Good :
        (v : Reason) (p : Process R U)
        → v ≢ internal_error
        → budget p ≤ b
        → InRange ms p
        → Good ms b (try_restart receive restart v p)
    unfolding try_restart restarted
    try_restart-Good internal_error p ne h r = absurd (ne refl)
    try_restart-Good nil_call p ne h r = crash-Good nil_call p h r
    try_restart-Good (failure n) p ne h r = crash-Good (failure n) p h r

    recover_invoke-Good :
        (rest : List (Envelope U)) (v : Reason) (p : Process R U)
        → v ≢ internal_error
        → budget p ≤ b
        → InRange ms p
        → Good ms b (recover_invoke receive restart rest v p)
    unfolding recover_invoke
    recover_invoke-Good rest v p ne h r =
        >>=-Good ms b _ _ (call-Good ms receive (record p { message = stopped }) b plain h r)
          λ q h' r'. try_restart-Good v (record q { mbuffer = rest }) ne h' r'

    invoke-Good :
        (msgs : List (Envelope U)) (p : Process R U)
        → budget p ≤ b
        → InRange ms p
        → Good ms b (invoke receive restart msgs p)
    unfolding invoke
    invoke-Good msgs p h r =
        outcome (invoke_loop receive msgs msgs 0 0 p).0 (invoke_loop receive msgs msgs 0 0 p).1
          (invoke_loop-Good receive ms plain plain_wrapped msgs msgs 0 0 p b h r)
      where
        outcome :
            (res : Res R U) (nproc : ℕ)
            → Good ms b res
            → Good ms b (elim res [
              | done q ↦ done q
              | panicked v q ↦ recover_invoke receive restart (drop nproc msgs) v q
              | blocked q ↦ blocked q
              | out_of_fuel ↦ out_of_fuel
            ])
        outcome (done q) n g = g
        outcome (panicked v q) n g = recover_invoke-Good (drop n msgs) v q g.2 g.0 g.1
        outcome (blocked q) n g = g
        outcome out_of_fuel n g = g

    announce-Good :
        (m : Message U) (ev : Pid → Event) (p : Process R U)
        → budget p ≤ b
        → InRange ms p
        → Good ms b (announce receive restart m ev p)
    unfolding announce
    announce-Good m ev p h r =
        >>=-Good ms b _ _
          (call_wrapped-Good receive ms plain plain_wrapped (record p { message = m }) b h r)
          (λ q h' r'. (h', r'))

    replay-Good :
        (p : Process R U) → budget p ≤ b → InRange ms p → Good ms b (replay receive restart p)
    unfolding replay
    replay-Good p h r = buffered p.mbuffer
      where
        buffered :
            (l : List (Envelope U))
            → Good ms b (elim l [
              | [] ↦ done p
              | _ ∷ _ ↦ invoke receive restart p.mbuffer p >>= λ q. done (record q { mbuffer = [] })
            ])
        buffered [] = (h, r)
        buffered (_ ∷ _) = >>=-Good ms b _ _ (invoke-Good p.mbuffer p h r) (λ q h' r'. (h', r'))

    recover_start-Good :
        (res : Res R U) → Good ms b res → Good ms b (recover_start receive restart res)
    unfolding recover_start
    recover_start-Good (done q) g = g
    recover_start-Good (panicked v q) g =
        >>=-Good ms b _ _ (call-Good ms receive (record q { message = stopped }) b plain g.0 g.1)
          (λ q' h' r'. try_restart-Good v q' g.2 h' r')
    recover_start-Good (blocked q) g = g
    recover_start-Good out_of_fuel g = g

    start_body-Good :
        (produce : R) (p : Process R U)
        → budget p ≤ b
        → InRange ms p
        → Good ms b (start_body receive restart produce p)
    unfolding start_body
    start_body-Good produce p h r = recover_start-Good _ (
        >>=-Good ms b _ _
          (>>=-Good ms b _ _
            (>>=-Good ms b _ _
              (announce-Good initialized actor_initialized
                (record p { env = record p.env { receiver = produce } }) h r)
              (announce-Good started actor_started))
            replay-Good)
          (λ q h' r'. (h', r')))

  start-Good :
      (produce : R) (f : ℕ) (p : Process R U)
      → budget p < f
      → InRange ms p
      → Good ms (budget p) (start receive produce f p)
  unfolding start
  start-Good produce zero p h r = absurd (omega arith)
  start-Good produce (suc f) p h r =
      start_body-Good (start receive produce f) (budget p)
        (λ q h' r'. start-Good produce f q (omega arith) r') produce p (omega arith) r

  -- A start of a process, with its replay of kept messages and its restarts, ends in a return or a
  -- panic, and waits for no child for ever, for any fuel above the restarts that are left, if
  -- neither the receiver nor what its middleware makes of it raises an InternalError, the counters
  -- are int32 bit patterns and the context of no poisoned child stays open for ever.
  pub start_ends :
      (produce : R) (f : ℕ) (p : Process R U)
      → budget p < f
      → InRange ms p
      → (start receive produce f p ≢ out_of_fuel)
        × ((q : Process R U) → start receive produce f p ≢ blocked q)
  start_ends produce f p h r = Good-ends ms (budget p) _ (start-Good produce f p h r)

  -- A batch, with the restarts that its crashes cause, ends in a return or a panic for any fuel of
  -- at least the restarts that are left, if neither the receiver nor what its middleware makes of
  -- it raises an InternalError and the counters are int32 bit patterns.
  pub invoke_ends :
      (produce : R) (f : ℕ) (msgs : List (Envelope U)) (p : Process R U)
      → budget p ≤ f
      → InRange ms p
      → (invoke receive (start receive produce f) msgs p ≢ out_of_fuel)
        × ((q : Process R U) → invoke receive (start receive produce f) msgs p ≢ blocked q)
  invoke_ends produce f msgs p h r = Good-ends ms (budget p) _ (
      invoke-Good (start receive produce f) (budget p)
        (λ q h' r'. start-Good produce f q (omega arith) r') msgs p (omega arith) r)
