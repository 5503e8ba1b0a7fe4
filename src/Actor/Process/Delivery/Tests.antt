-- ===== src/Actor/Process/Delivery/Tests.antt =====
-- actor/inbox.go and actor/process.go: two messages that an inbox hands on in one batch, of which
-- the first crashes the receiver.
use distributed_framework.Actor.Inbox.{
  Inbox, new_inbox, push, schedule, turn, run, finish, check, begin_start, swap_idle, pushes,
  schedules_push, runs, finishes, checks, begins_start, swaps_idle, schedules_start, Reach, fresh,
  then_step,
}
use distributed_framework.Actor.Inbox as Inbox
use distributed_framework.Actor.Process.Seen.{Behaves, crash_count, is_user}
use distributed_framework.Actor.Process.Survived.{Survived}
use distributed_framework.Actor.Process.Survive.{survive_lem}
use distributed_framework.Actor.Process.{start, invoke, Process, apply_middleware}
use distributed_framework.Actor.Messages.{
  Message, failure, panics, started, stopped, pill, Envelope, ReceiveFunc, returns, initialized,
  user, child_ends,
}
use distributed_framework.Actor.Process.Ran.{Handles, wrapped}
use distributed_framework.Actor.Process.Delivery.{invoke_all, joined, delivery_lem}
use distributed_framework.Common.{
  ℕ, ◌-◌, ◌≡◌, refl, ◌≢◌, true, none, List, [], ◌∷◌, arith, All, nat_keys, string_keys, Option,
  some, nat_eq, if◌then◌else◌,
}

abbrev keeper : ReceiveFunc ℕ ℕ
keeper (user n) s env = if nat_eq n 7 then panics (failure n) env else returns env
keeper initialized s env = returns env
keeper started s env = returns env
keeper stopped s env = returns env
keeper (pill c g) s env = returns env

abbrev crashes : Envelope ℕ → Option ℕ
crashes m = at m.msg
  where
    at : Message ℕ → Option ℕ
    at (user n) = if nat_eq n 7 then some n else none
    at initialized = none
    at started = none
    at stopped = none
    at (pill c g) = none

abbrev process : Process ℕ ℕ
process = record {
  pid = record { address = "local"; id = "keeper/1" };
  parent = none;
  max_restarts = 3;
  middleware = [];
  env = record { receiver = 0; children = record { entries = [] } };
  message = initialized;
  sender = none;
  restarts = 0;
  mbuffer = [];
  inbox_running = true;
  registered = true;
  fates = λ pid. child_ends;
  log = [];
}

abbrev letter : ℕ → Envelope ℕ
letter n = record { msg = user n; sender = none }

abbrev waiting : Inbox (Envelope ℕ)
unfolding new_inbox push begin_start swap_idle
waiting = swap_idle (begin_start (push (letter 8) (push (letter 7) new_inbox)))

abbrev working : Inbox (Envelope ℕ)
unfolding schedule
working =
    schedule
      (record (schedule
        (record (schedule (record waiting { started = waiting.started - 1 })) { pushed = 1 })) {
          pushed = 0;
        })

abbrev quiet : Inbox (Envelope ℕ)
unfolding run turn finish check
quiet = check (finish (run (run working)))

waiting-Reach : Reach waiting
unfolding new_inbox push begin_start swap_idle
waiting-Reach =
    then_step
      (then_step
        (then_step (then_step fresh (pushes new_inbox (letter 7)))
          (pushes (push (letter 7) new_inbox) (letter 8)))
        (begins_start (push (letter 8) (push (letter 7) new_inbox))))
      (swaps_idle (begin_start (push (letter 8) (push (letter 7) new_inbox))) (omega arith))

abbrev started_up : Inbox (Envelope ℕ)
unfolding schedule
started_up = schedule (record waiting { started = waiting.started - 1 })

working-Reach : Reach working
unfolding new_inbox push begin_start swap_idle schedule
working-Reach =
    then_step
      (then_step (then_step waiting-Reach (schedules_start waiting (omega arith)))
        (schedules_push started_up (omega arith)))
      (schedules_push (schedule (record started_up { pushed = 1 })) (omega arith))

quiet-Reach : Reach quiet
unfolding new_inbox push begin_start swap_idle schedule run turn finish check
quiet-Reach =
    then_step
      (then_step
        (then_step (then_step working-Reach (runs working (omega arith)))
          (runs (run working) (omega arith)))
        (finishes (run (run working)) (omega arith)))
      (checks (finish (run (run working))) (omega arith))

quiet_up : quiet.status ≢ Inbox.stopped
unfolding new_inbox push begin_start swap_idle schedule run turn finish check
quiet_up e = cc

abbrev batches : List (List (Envelope ℕ))
batches = (letter 7 ∷ letter 8 ∷ []) ∷ []

handed_on : joined batches ≡ quiet.handled
unfolding new_inbox push begin_start swap_idle schedule run turn finish check
handed_on = refl

first_crashes : Behaves (wrapped keeper []) crashes (letter 7)
unfolding apply_middleware is_user
first_crashes = (refl, λ s e. (e, refl))

second_handled : Behaves (wrapped keeper []) crashes (letter 8)
unfolding apply_middleware is_user
second_handled = (refl, λ s e. (e, refl))

All-Behaves : All (Behaves (wrapped keeper []) crashes) quiet.sent
unfolding new_inbox push begin_start swap_idle schedule run turn finish check
All-Behaves = (first_crashes, (second_handled, tt))

initialized_handled : Handles (wrapped keeper []) initialized
unfolding apply_middleware
initialized_handled s e = (e, refl)

started_handled : Handles (wrapped keeper []) started
unfolding apply_middleware
started_handled s e = (e, refl)

one_crash : crash_count crashes quiet.sent ≡ 1
unfolding new_inbox push begin_start swap_idle schedule run turn finish check crash_count
one_crash = refl

survive_lem_example :
    Survived process
      (invoke keeper (start keeper 0 1) (letter 7 ∷ letter 8 ∷ []) process)
      (letter 7 ∷ letter 8 ∷ [])
      (crash_count crashes (letter 7 ∷ letter 8 ∷ []))
unfolding crash_count
survive_lem_example =
    survive_lem keeper [] crashes 0 1 (letter 7 ∷ letter 8 ∷ []) process refl (λ s e. (e, refl))
      initialized_handled started_handled (first_crashes, (second_handled, tt)) (omega arith)
      (omega arith) (omega arith)

delivery_lem_example :
    Survived process
      (invoke_all keeper 0 1 batches process)
      quiet.sent
      (crash_count crashes quiet.sent)
unfolding new_inbox push begin_start swap_idle schedule run turn finish check
delivery_lem_example =
    delivery_lem keeper [] crashes 0 1 quiet batches process quiet-Reach refl quiet_up handed_on
      refl (λ s e. (e, refl)) initialized_handled started_handled All-Behaves
      (omega (arith, one_crash)) (omega (arith, one_crash)) (omega arith)
