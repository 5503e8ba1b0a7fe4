-- ===== src/Actor/Inbox/Laws.antt =====
-- actor/inbox.go: one consumer at a time, and no message is left behind.
use distributed_framework.Actor.Inbox.{
  Inbox, Status, stopped, starting, idle, running, new_inbox, push, schedule, turn, run, finish,
  check, begin_start, swap_idle, Step, pushes, schedules_push, runs, finishes, checks, reschedules,
  begins_start, swaps_idle, schedules_start, Reach, fresh, then_step, active, message_batch_size,
}
use distributed_framework.Common.{
  ℕ, ◌+◌, ◌<◌, ◌≡◌, ◌⊎◌, List, [], ◌++◌, arith, nat_keys, string_keys, zero, suc, ◌-◌, ◌≤◌, refl,
  sym, ap, ◌∙◌, ◌≢◌, ◌∷◌, append-nil, append_assoc, take, drop,
}

-- How many goroutines of each kind a status allows, and, while the inbox is idle, that a goroutine
-- which will schedule it is under way where messages wait.
abbrev Counts : {M : Type 0} → Status → List M → ℕ → ℕ → ℕ → Type 0
Counts stopped queue consumers starters wakers = (consumers ≡ 0) × (starters ≡ 0)
Counts starting queue consumers starters wakers = (consumers ≡ 0) × (starters ≡ 1)
Counts idle queue consumers starters wakers =
    (consumers ≡ 0) × (starters ≡ 0) × ((queue ≡ []) ⊎ (0 < wakers))
Counts running queue consumers starters wakers = (consumers ≡ 1) × (starters ≡ 0)

abbrev Good : {M : Type 0} → Inbox M → Type 0
Good s =
    Counts s.status s.queue (s.looping + s.finishing) s.starters
      (s.pushed + s.checking + s.rescheduling + s.started)

abbrev Fifo : {M : Type 0} → Inbox M → Type 0
Fifo s = s.handled ++ s.queue ≡ s.sent

Step-Good : {M : Type 0} {s t : Inbox M} → Step s t → Good s → Good t
unfolding push schedule turn run finish check begin_start swap_idle
Step-Good (pushes s m) g = ground arith
Step-Good (schedules_push s h) g = ground arith
Step-Good (runs s h) g = ground arith
Step-Good (finishes s h) g = ground arith
Step-Good (checks s h) g = ground arith
Step-Good (reschedules s h) g = ground arith
Step-Good (begins_start s) g = ground arith
Step-Good (swaps_idle s h) g = ground arith
Step-Good (schedules_start s h) g = ground arith

take-append-drop : {M : Type 0} (n : ℕ) (xs : List M) → take n xs ++ drop n xs ≡ xs
take-append-drop zero xs = refl
take-append-drop (suc n) [] = refl
take-append-drop (suc n) (x ∷ xs) = ap (λ l. x ∷ l) (take-append-drop n xs)

schedule-Fifo : {M : Type 0} (s : Inbox M) → Fifo s → Fifo (schedule s)
unfolding schedule
schedule-Fifo s f = ground arith

turn-Fifo : {M : Type 0} (s : Inbox M) → Fifo s → Fifo (turn s)
unfolding turn
turn-Fifo s f = ground (
  arith,
  append_assoc s.handled (take message_batch_size s.queue) (drop message_batch_size s.queue),
  take-append-drop message_batch_size s.queue,
)

Step-Fifo : {M : Type 0} {s t : Inbox M} → Step s t → Fifo s → Fifo t
unfolding push run finish check begin_start swap_idle
Step-Fifo (pushes s m) f = sym (append_assoc s.handled s.queue (m ∷ [])) ∙ ap (λ l. l ++ m ∷ []) f
Step-Fifo (schedules_push s h) f = schedule-Fifo (record s { pushed = s.pushed - 1 }) f
Step-Fifo (runs s h) f = ground (arith, turn-Fifo s f)
Step-Fifo (finishes s h) f = ground arith
Step-Fifo (checks s h) f = ground arith
Step-Fifo (reschedules s h) f = schedule-Fifo (record s { rescheduling = s.rescheduling - 1 }) f
Step-Fifo (begins_start s) f = ground arith
Step-Fifo (swaps_idle s h) f = f
Step-Fifo (schedules_start s h) f = schedule-Fifo (record s { started = s.started - 1 }) f

Reach-Good : {M : Type 0} {s : Inbox M} → Reach s → Good s × Fifo s
unfolding new_inbox
Reach-Good fresh = ((refl, refl), refl)
Reach-Good (then_step r st) = let (g, f) = Reach-Good r in (Step-Good st g, Step-Fifo st f)

-- In every interleaving of sends, starts and the goroutines that process a new inbox that is not
-- stopped again, at most one goroutine at a time takes messages out of the inbox or is about to
-- give it up, and the messages given to Invoke, followed by those that wait, are those that were
-- sent, in order.
pub one_consumer :
    {M : Type 0} (s : Inbox M)
    → Reach s
    → (s.looping + s.finishing ≤ 1) × (s.handled ++ s.queue ≡ s.sent)
one_consumer s r = let (g, f) = Reach-Good r in (ground arith, f)

-- In every interleaving of sends, starts and the goroutines that process a new inbox that is not
-- stopped again, no message is left behind: when no goroutine is under way any more and the inbox
-- has been started, exactly the messages that were sent have been given to Invoke, in order.
pub none_left_behind :
    {M : Type 0} (s : Inbox M) → Reach s → active s ≡ 0 → s.status ≢ stopped → s.handled ≡ s.sent
none_left_behind s r quiet up = let (g, f) = Reach-Good r in empty g f
  where
    empty : Good s → Fifo s → s.handled ≡ s.sent
    empty g f = sym (append-nil s.handled) ∙ ap (λ q. s.handled ++ q) (sym no_queue) ∙ f
      where
        no_queue : s.queue ≡ []
        no_queue = ground arith
