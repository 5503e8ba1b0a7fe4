-- ===== src/Actor/Repeater/Tests.antt =====
-- actor/engine.go: a repeater that sends once and is stopped.
use distributed_framework.Actor.Pid.{Pid}
use distributed_framework.Actor.Repeater.{
  SendRepeater, start, tick, fire, stop, ticks_on, fires, ends, stops, Reach, here, next,
}
use distributed_framework.Common.{ℕ, ◌≡◌, refl, true, false, none, some, nat_keys, string_keys}

abbrev target : Pid
target = record { address = "local"; id = "a/1" }

abbrev first : SendRepeater ℕ
first = start none target 7 1000

abbrev once : SendRepeater ℕ
once = fire (tick first)

abbrev stopped : SendRepeater ℕ
stopped = record once { cancelled = true }

abbrev over : SendRepeater ℕ
over = record stopped { ended = true }

is_ready : ((tick first).ended ≡ false) × ((tick first).ready ≡ true)
unfolding start tick
is_ready = (refl, refl)

stops_once : (stop once ≡ some stopped) × (stop stopped ≡ none)
unfolding start tick fire stop
stops_once = (refl, refl)

not_ended : stopped.ended ≡ false
unfolding start tick fire
not_ended = refl

over-Reach : Reach first over
over-Reach =
    next
      (next (next (next here (ticks_on first)) (fires (tick first) is_ready.0 is_ready.1))
        (stops once stopped stops_once.0))
      (ends stopped not_ended refl)
