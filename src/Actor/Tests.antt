-- ===== src/Actor/Tests.antt =====
-- actor/engine.go, actor/registry.go and actor/event_stream.go: an engine with one actor.
use distributed_framework.Common.Dict.{lookup, has}
use distributed_framework.Actor.Pid.{Pid, new_pid}
use distributed_framework.Actor.Engine.{
  Engine, Letter, plain, event, duplicate_id, process_send, process_start, send, add, request,
  result, get,
}
use distributed_framework.Actor.Engine.Routing.{
  Wired, route, send_ends, stale_stream_never_ends, add_lem, request_lem,
}
use distributed_framework.Actor.Inbox.{
  Inbox, stopped, new_inbox, push, schedule, turn, run, finish, check, begin_start, swap_idle,
  pushes, schedules_push, runs, finishes, checks, begins_start, swaps_idle, schedules_start, Reach,
  fresh, then_step,
}
use distributed_framework.Actor.Inbox.Laws.{one_consumer, none_left_behind}
use distributed_framework.Safemap as Safemap
use distributed_framework.Actor.Context.{Context, spawn_child, child}
use distributed_framework.Actor.Context.Laws.{spawn_child_lem}
use distributed_framework.Common.{
  ℕ, ◌≡◌, refl, none, some, [], ◌∷◌, if◌then◌else◌, ◌==◌, nat_keys, string_keys, ◌+◌, ◌-◌, ◌≤◌, ◌≢◌,
  ◌++◌, arith,
}

abbrev stream : Pid
stream = record { address = "local"; id = "eventstream/1" }

abbrev player : Pid
player = record { address = "local"; id = "player/1" }

abbrev ghost : Pid
ghost = record { address = "local"; id = "ghost/1" }

abbrev letter : Letter ℕ
letter = plain 7

abbrev answer : ℕ
answer = 8

abbrev p1 : ℕ
p1 = 1

abbrev p2 : ℕ
p2 = 2

abbrev engine : Engine
engine = record {
  registry = record { entries = (stream.id, stream) ∷ (player.id, player) ∷ [] };
  address = "local";
  remote = none;
  event_stream = some stream;
}

-- The engine after its event stream has ended.
abbrev stale : Engine
stale = record engine { registry = record { entries = (player.id, player) ∷ [] } }

engine-Wired : Wired engine stream
unfolding lookup
engine-Wired = record { stream = refl; here = refl; registered = refl }

send_ends_example :
    send 2 engine (some ghost) letter (some player)
    ≡ some (route engine stream (some ghost) letter (some player))
send_ends_example = send_ends 0 engine stream (some ghost) letter (some player) engine-Wired

stale_example : send 9 stale (some ghost) letter none ≡ none
unfolding lookup
stale_example = stale_stream_never_ends 9 stale stream ghost letter none refl refl refl refl refl

add_lem_example :
    Wired (add {M = ℕ} 1 engine ghost).0 stream
    × (lookup "ghost/1" (add {M = ℕ} 1 engine ghost).0.registry.entries ≡ (
        if ghost.id == "ghost/1"
        then elim (lookup "ghost/1" engine.registry.entries) [ none ↦ some ghost | some p ↦ some p ]
        else lookup "ghost/1" engine.registry.entries))
    × ((add {M = ℕ} 1 engine ghost).1
        ≡ some (
            (if has ghost.id engine.registry.entries
              then process_send stream (event (duplicate_id ghost)) none
              else process_start ghost)
            ∷ []))
add_lem_example = add_lem 0 engine stream ghost "ghost/1" engine-Wired

request_lem_example :
    ((request 2 engine (some player) letter "5").2
      ≡ some (
          process_start (request 2 engine (some player) letter "5").1
          ∷ route
              (request 2 engine (some player) letter "5").0
              stream
              (some player)
              letter
              (some (request 2 engine (some player) letter "5").1)))
    × (get
          (request 2 engine (some player) letter "5").0.registry
          (some (request 2 engine (some player) letter "5").1)
        ≡ some (request 2 engine (some player) letter "5").1)
    × (lookup "player/1"
          (result
            (request 2 engine (some player) letter "5").0
            (request 2 engine (some player) letter "5").1
            (some answer)).0.registry.entries
        ≡ lookup "player/1" engine.registry.entries)
unfolding has
request_lem_example =
    request_lem 0 engine stream (some player) letter "5" (some answer) "player/1" engine-Wired refl

abbrev made : Engine
made = record {
  registry = record { entries = (stream.id, stream) ∷ [] };
  address = "local";
  remote = none;
  event_stream = some stream;
}

-- An inbox that is sent a message, is started, and hands the message on.
abbrev waiting : Inbox ℕ
unfolding new_inbox push begin_start swap_idle
waiting = swap_idle (begin_start (push 7 new_inbox))

abbrev working : Inbox ℕ
unfolding schedule
working =
    schedule (record (schedule (record waiting { started = waiting.started - 1 })) { pushed = 0 })

abbrev quiet : Inbox ℕ
unfolding run turn finish check
quiet = check (finish (run (run working)))

waiting-Reach : Reach waiting
unfolding new_inbox push begin_start swap_idle
waiting-Reach =
    then_step (then_step (then_step fresh (pushes new_inbox 7)) (begins_start (push 7 new_inbox)))
      (swaps_idle (begin_start (push 7 new_inbox)) (omega arith))

working-Reach : Reach working
unfolding new_inbox push begin_start swap_idle schedule
working-Reach =
    then_step (then_step waiting-Reach (schedules_start waiting (omega arith)))
      (schedules_push (schedule (record waiting { started = waiting.started - 1 })) (omega arith))

quiet-Reach : Reach quiet
unfolding new_inbox push begin_start swap_idle schedule run turn finish check
quiet-Reach =
    then_step
      (then_step
        (then_step (then_step working-Reach (runs working (omega arith)))
          (runs (run working) (omega arith)))
        (finishes (run (run working)) (omega arith)))
      (checks (finish (run (run working))) (omega arith))

quiet_up : quiet.status ≢ stopped
unfolding new_inbox push begin_start swap_idle schedule run turn finish check
quiet_up e = cc

one_consumer_example :
    (working.looping + working.finishing ≤ 1) × (working.handled ++ working.queue ≡ working.sent)
one_consumer_example = one_consumer working working-Reach

none_left_behind_example : quiet.handled ≡ quiet.sent
unfolding new_inbox push begin_start swap_idle schedule run turn finish check
none_left_behind_example = none_left_behind quiet quiet-Reach refl quiet_up

abbrev context : Context ℕ
context = record {
  pid = player;
  sender = some ghost;
  message = letter;
  parent = none;
  children = record { entries = [] };
}

abbrev item : Pid
item = record { address = "local"; id = "player/1/item/1" }

spawn_child_lem_example :
    let r = spawn_child 1 engine context "item" "1" "5" letter in
    Wired r.0 stream
    × (lookup r.2.pid.id r.0.registry.entries ≡ elim (lookup r.2.pid.id engine.registry.entries) [
      | none ↦ some r.2.pid
      | some p ↦ some p
    ])
    × (r.2.pid ≡ item)
    × (r.2.parent ≡ some context.pid)
    × (child r.1 "x" ≡ (if r.2.pid.id == "x" then some r.2.pid else child context "x"))
    × Safemap.IsValid r.1.children
unfolding new_pid
spawn_child_lem_example =
    spawn_child_lem 0 engine stream context "item" "1" "5" "x" letter engine-Wired tt
