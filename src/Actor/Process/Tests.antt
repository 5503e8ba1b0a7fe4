-- ===== src/Actor/Process/Tests.antt =====
-- actor/process.go: a process whose receiver crashes on the message 13.
use distributed_framework.Actor.Pid.{Pid}
use distributed_framework.Actor.Process.{Process, out_of_fuel, start, invoke, apply_middleware}
use distributed_framework.Actor.Messages.{
  Envelope, failure, returns, panics, ReceiveFunc, initialized, started, stopped, pill, user,
  is_pill, child_ends,
}
use distributed_framework.Actor.Process.Ran.{Handles, Crashes, Takes, wrapped}
use distributed_framework.Actor.Process.Good.{Plain, InRange}
use distributed_framework.Actor.Process.Fuel.{start_ends}
use distributed_framework.Actor.Process.Crash.{Resumed, crash_resumes}
use distributed_framework.Actor.Process.Poison.{poison_lem}
use distributed_framework.Actor.Process.Ended.{Ended}
use distributed_framework.Actor.Process.GiveUp.{GivenUp, gives_up}
use distributed_framework.Actor.Process.Lost.{pill-Lost}
use distributed_framework.Actor.Process.{blocked}
use distributed_framework.Actor.Messages.{Message}
use distributed_framework.Actor.Process.Release.{NoneHangs}
use distributed_framework.Actor.Process.Seen.{Behaves, crash_count, is_user}
use distributed_framework.Actor.Process.Survived.{Survived}
use distributed_framework.Common.{
  Option, ℕ, refl, true, none, [], arith, nat_eq, if◌then◌else◌, nat_keys, string_keys, ◌≡◌, ◌≢◌,
  false, some, ◌∷◌, ◌++◌,
}

abbrev counter : ReceiveFunc ℕ ℕ
counter (user n) s env = if nat_eq n 13 then panics (failure n) env else returns env
counter initialized s env = returns env
counter started s env = returns env
counter stopped s env = returns env
counter (pill c g) s env = returns env

abbrev own : Pid
own = record { address = "local"; id = "counter/1" }

abbrev process : Process ℕ ℕ
process = record {
  pid = own;
  parent = none;
  max_restarts = 3;
  middleware = [];
  env = record { receiver = 0; children = record { entries = [] } };
  message = initialized;
  sender = none;
  restarts = 0;
  mbuffer = [];
  inbox_running = true;
  registered = true;
  fates = λ pid. child_ends;
  log = [];
}

abbrev worn : Process ℕ ℕ
worn = record process { restarts = 3 }

abbrev letter : ℕ → Envelope ℕ
letter n = record { msg = user n; sender = none }

counter-Plain : Plain counter
counter-Plain (user n) s e e' h = ground arith
counter-Plain initialized s e e' h = cc
counter-Plain started s e e' h = cc
counter-Plain stopped s e e' h = cc
counter-Plain (pill c g) s e e' h = cc

wrapped-Plain : Plain (apply_middleware counter [])
unfolding apply_middleware
wrapped-Plain = counter-Plain

none_hangs : NoneHangs process
none_hangs pid e = cc

process-InRange : InRange [] process
process-InRange = (omega arith, omega arith, refl, none_hangs)

one_taken : Takes (wrapped counter []) (letter 1)
unfolding apply_middleware is_pill
one_taken = (refl, λ s e. (e, refl))

bad-Crashes : Crashes (wrapped counter []) (user 13) (failure 13)
unfolding apply_middleware
bad-Crashes = λ s e. (e, refl)

stopped_handled : Handles (wrapped counter []) stopped
unfolding apply_middleware
stopped_handled = λ s e. (e, refl)

start_ends_example :
    (start counter 0 5 process ≢ out_of_fuel)
    × ((q : Process ℕ ℕ) → start counter 0 5 process ≢ blocked q)
start_ends_example =
    start_ends counter [] counter-Plain wrapped-Plain 0 5 process (omega arith) process-InRange

abbrev bad : Envelope ℕ
bad = letter 13

bad_is_plain : is_pill bad.msg ≡ false
unfolding is_pill
bad_is_plain = refl

zero_ne_three : process.restarts ≢ process.max_restarts
zero_ne_three e = omega (arith, e)

initialized_handled : Handles (wrapped counter []) initialized
unfolding apply_middleware
initialized_handled = λ s e. (e, refl)

started_handled : Handles (wrapped counter []) started
unfolding apply_middleware
started_handled = λ s e. (e, refl)

stop_handled : Handles counter stopped
stop_handled = λ s e. (e, refl)

crash_resumes_example :
    Resumed counter [] 0
      (letter 1 ∷ [])
      bad
      (letter 1 ∷ [])
      13
      process
      (invoke counter (start counter 0 6) ((letter 1 ∷ []) ++ bad ∷ letter 1 ∷ []) process)
crash_resumes_example =
    crash_resumes counter [] 0 5 13 (letter 1 ∷ []) bad (letter 1 ∷ []) process refl zero_ne_three
      (one_taken, tt) bad_is_plain bad-Crashes (one_taken, tt) stop_handled initialized_handled
      started_handled

abbrev kid : Pid
kid = record { address = "local"; id = "counter/1/kid/1" }

abbrev parent : Process ℕ ℕ
parent = record process {
  env = record { receiver = 0; children = record { entries = ("counter/1/kid/1", kid) ∷ [] } };
}

poison_lem_example :
    Ended counter [] parent ((letter 1 ∷ []) ++ (if true then letter 1 ∷ [] else [])) 4 (
      invoke counter
        (start counter 0 5)
        ((letter 1 ∷ []) ++ record { msg = pill (some 4) true; sender = none } ∷ letter 1 ∷ [])
        parent)
poison_lem_example =
    poison_lem counter [] (start counter 0 5) (letter 1 ∷ []) (letter 1 ∷ []) 4 true none parent
      refl (one_taken, tt) (one_taken, tt) none_hangs stopped_handled

gives_up_example :
    GivenUp counter (invoke counter (start counter 0 5) ((letter 1 ∷ []) ++ bad ∷ []) worn)
gives_up_example =
    gives_up counter [] (start counter 0 5) 13 (letter 1 ∷ []) bad [] worn refl refl (one_taken, tt)
      bad_is_plain bad-Crashes stop_handled none_hangs

abbrev crashes : Envelope ℕ → Option ℕ
crashes m = at m.msg
  where
    at : Message ℕ → Option ℕ
    at (user n) = if nat_eq n 13 then some n else none
    at initialized = none
    at started = none
    at stopped = none
    at (pill c g) = none

one-Behaves : Behaves (wrapped counter []) crashes (letter 1)
unfolding apply_middleware is_user
one-Behaves = (refl, λ s e. (e, refl))

bad-Behaves : Behaves (wrapped counter []) crashes bad
unfolding apply_middleware is_user
bad-Behaves = (refl, λ s e. (e, refl))

pill-Lost_example :
    Survived process
      (invoke counter
        (start counter 0 2)
        ((letter 2 ∷ [])
          ++ record { msg = pill (some 4) true; sender = none } ∷ ((letter 1 ∷ []) ++ bad ∷ []))
        process)
      (((letter 2 ∷ []) ++ ((letter 1 ∷ []) ++ bad ∷ [])) ++ ((letter 1 ∷ []) ++ bad ∷ []))
      2
unfolding crash_count is_user apply_middleware
pill-Lost_example =
    pill-Lost counter [] crashes 0 1 (letter 2 ∷ []) (letter 1 ∷ []) bad [] 4 13 none process refl
      stop_handled initialized_handled started_handled ((refl, λ s e. (e, refl)), tt) refl
      (one-Behaves, tt) refl refl (bad-Behaves, tt) (omega arith) (omega arith) (omega arith)
