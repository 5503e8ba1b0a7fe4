-- ===== src/Actor/Inbox.antt =====
-- actor/inbox.go: the inbox of a process, and the goroutines that use it at the same time. Each
-- step is one atomic operation of one goroutine; goroutines at the same place are counted. The ring
-- is the FIFO queue that it refines.
pub mod Laws
use distributed_framework.Common.{
  ℕ, ◌+◌, ◌-◌, ◌<◌, List, [], ◌∷◌, ◌++◌, take, drop, nat_keys, string_keys,
}

pub data Status : Type 0 where
  stopped starting idle running : Status

-- `pushed` goroutines are in `Send` between `Push` and `schedule`. `looping` ones are in `run`,
-- `finishing` ones have left it and have the compare-and-swap of `process` before them, `checking`
-- ones the look at the length and `rescheduling` ones the call of `schedule`. `starters` are in
-- `Start` behind its compare-and-swap and `started` ones behind its swap. `sent` and `handled` are
-- the messages of all calls of `Send` and those given to `Invoke`, in order.
pub record Inbox (M : Type 0) : Type 0 where
  pub status : Status
  pub queue : List M
  pub pushed : ℕ
  pub looping : ℕ
  pub finishing : ℕ
  pub checking : ℕ
  pub rescheduling : ℕ
  pub starters : ℕ
  pub started : ℕ
  pub sent : List M
  pub handled : List M

abbrev pub message_batch_size : ℕ
message_batch_size = 4096

unfoldable pub new_inbox : {M : Type 0} → Inbox M
new_inbox = record {
  status = stopped;
  queue = [];
  pushed = 0;
  looping = 0;
  finishing = 0;
  checking = 0;
  rescheduling = 0;
  starters = 0;
  started = 0;
  sent = [];
  handled = [];
}

module _ {M : Type 0} where
  -- `Push` of the ring.
  unfoldable pub push : M → Inbox M → Inbox M
  push m s = record s { queue = s.queue ++ m ∷ []; sent = s.sent ++ m ∷ []; pushed = s.pushed + 1 }

  -- `schedule`: an idle inbox gets a goroutine that runs `process`.
  unfoldable pub schedule : Inbox M → Inbox M
  schedule s = elim s.status [
    | idle ↦ record s { status = running; looping = s.looping + 1 }
    | stopped ↦ s
    | starting ↦ s
    | running ↦ s
  ]

  -- One turn of `run` on an inbox that is not stopped: a batch, or the end of the loop.
  unfoldable pub turn : Inbox M → Inbox M
  turn s = elim s.queue [
    | [] ↦ record s { looping = s.looping - 1; finishing = s.finishing + 1 }
    | m ∷ ms ↦ record s {
      queue = drop message_batch_size (m ∷ ms);
      handled = s.handled ++ take message_batch_size (m ∷ ms);
    }
  ]

  -- `run` looks at the status before each turn.
  unfoldable pub run : Inbox M → Inbox M
  unfolding turn
  run s = elim s.status [
    | stopped ↦ record s { looping = s.looping - 1; finishing = s.finishing + 1 }
    | starting ↦ turn s
    | idle ↦ turn s
    | running ↦ turn s
  ]

  -- The compare-and-swap of `process` after `run`.
  unfoldable pub finish : Inbox M → Inbox M
  finish s = elim s.status [
    | running ↦ record s { status = idle; finishing = s.finishing - 1; checking = s.checking + 1 }
    | stopped ↦ record s { finishing = s.finishing - 1 }
    | starting ↦ record s { finishing = s.finishing - 1 }
    | idle ↦ record s { finishing = s.finishing - 1 }
  ]

  unfoldable pub check : Inbox M → Inbox M
  check s = elim s.queue [
    | [] ↦ record s { checking = s.checking - 1 }
    | m ∷ ms ↦ record s { checking = s.checking - 1; rescheduling = s.rescheduling + 1 }
  ]

  -- The compare-and-swap of `Start`; where it fails, `Start` does nothing.
  unfoldable pub begin_start : Inbox M → Inbox M
  begin_start s = elim s.status [
    | stopped ↦ record s { status = starting; starters = s.starters + 1 }
    | starting ↦ s
    | idle ↦ s
    | running ↦ s
  ]

  unfoldable pub swap_idle : Inbox M → Inbox M
  swap_idle s = record s { status = idle; starters = s.starters - 1; started = s.started + 1 }

  unfoldable pub stop : Inbox M → Inbox M
  stop s = record s { status = stopped }

-- The steps of an inbox that is not stopped again.
pub data Step {M : Type 0} : Inbox M → Inbox M → Type 0 where
  pushes : (s : Inbox M) (m : M) → Step s (push m s)
  schedules_push :
      (s : Inbox M) → 0 < s.pushed → Step s (schedule (record s { pushed = s.pushed - 1 }))
  runs : (s : Inbox M) → 0 < s.looping → Step s (run s)
  finishes : (s : Inbox M) → 0 < s.finishing → Step s (finish s)
  checks : (s : Inbox M) → 0 < s.checking → Step s (check s)
  reschedules :
      (s : Inbox M)
      → 0 < s.rescheduling
      → Step s (schedule (record s { rescheduling = s.rescheduling - 1 }))
  begins_start : (s : Inbox M) → Step s (begin_start s)
  swaps_idle : (s : Inbox M) → 0 < s.starters → Step s (swap_idle s)
  schedules_start :
      (s : Inbox M) → 0 < s.started → Step s (schedule (record s { started = s.started - 1 }))

pub data Reach {M : Type 0} : Inbox M → Type 0 where
  fresh : Reach new_inbox
  then_step : {s t : Inbox M} → Reach s → Step s t → Reach t

-- A run of an inbox and its end, by name: the goroutines that are not done yet.
abbrev pub active : {M : Type 0} → Inbox M → ℕ
active s = s.pushed + s.looping + s.finishing + s.checking + s.rescheduling + s.starters + s.started
