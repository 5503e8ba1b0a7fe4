-- ===== src/Actor/Repeater.antt =====
-- The repeated messages of actor/engine.go and actor/context.go: a goroutine with a ticker, and
-- the call that ends it.
mod Tests
use distributed_framework.Actor.Pid.{Pid}
use distributed_framework.Common.{
  ℕ, ◌+◌, ◌≤◌, ◌≡◌, Bool, true, false, Option, none, some, arith, if◌then◌else◌, nat_keys,
  string_keys, refl,
}

-- `M` are the messages; `interval` is in nanoseconds. `cancelled` is whether `cancelch` is closed,
-- `ended` whether the goroutine has returned, `ready` whether a tick stands in the ticker's
-- channel, and `ticks` and `sent` count the ticks of the timer and the messages.
pub record SendRepeater (M : Type 0) : Type 0 where
  pub own : Option Pid
  pub target : Pid
  pub msg : M
  pub interval : ℕ
  pub cancelled : Bool
  pub ended : Bool
  pub ready : Bool
  pub ticks : ℕ
  pub sent : ℕ

abbrev count_of : Bool → ℕ
count_of true = 1
count_of false = 0

module _ {M : Type 0} where
  -- `start`
  unfoldable pub start : Option Pid → Pid → M → ℕ → SendRepeater M
  start own target msg interval = record {
    own = own;
    target = target;
    msg = msg;
    interval = interval;
    cancelled = false;
    ended = false;
    ready = false;
    ticks = 0;
    sent = 0;
  }

  -- `Engine.SendRepeat` has no sender.
  unfoldable pub engine_send_repeat : Pid → M → ℕ → SendRepeater M
  unfolding start
  engine_send_repeat pid msg interval = start none pid msg interval

  -- `Context.SendRepeat` sends from the context's process.
  unfoldable pub context_send_repeat : Pid → Pid → M → ℕ → SendRepeater M
  unfolding start
  context_send_repeat own pid msg interval = start (some own) pid msg interval

  -- Closing a channel twice is a panic: `none`.
  unfoldable pub stop : SendRepeater M → Option (SendRepeater M)
  stop r = if r.cancelled then none else some (record r { cancelled = true })

  -- The ticker drops a tick that finds its channel full, and is stopped with the goroutine.
  unfoldable pub tick : SendRepeater M → SendRepeater M
  tick r = if r.ended then r else record r { ready = true; ticks = r.ticks + 1 }

  -- A choice of the `select`: to send, or to end. Where both are ready either may be taken.
  unfoldable pub fire : SendRepeater M → SendRepeater M
  fire r = record r { ready = false; sent = r.sent + 1 }

  pub data Step : SendRepeater M → SendRepeater M → Type 0 where
    ticks_on : (r : SendRepeater M) → Step r (tick r)
    fires : (r : SendRepeater M) → r.ended ≡ false → r.ready ≡ true → Step r (fire r)
    ends :
        (r : SendRepeater M)
        → r.ended ≡ false
        → r.cancelled ≡ true
        → Step r (record r { ended = true })
    stops : (r r' : SendRepeater M) → stop r ≡ some r' → Step r r'

  pub data Reach (s : SendRepeater M) : SendRepeater M → Type 0 where
    here : Reach s s
    next : {t u : SendRepeater M} → Reach s t → Step t u → Reach s u

  record Good (s r : SendRepeater M) : Type 0 where
    bounded : r.sent + count_of r.ready ≤ r.ticks
    goes_on : r.cancelled ≡ false → r.ended ≡ false
    silent : s.ended ≡ true → r.sent ≡ s.sent
    over : s.ended ≡ true → r.ended ≡ true
    same : (r.own ≡ s.own) × (r.target ≡ s.target)

  Step-Good : {s t u : SendRepeater M} → Step t u → Good s t → Good s u
  unfolding tick fire stop
  Step-Good (ticks_on r) g = ground arith
  Step-Good (fires r h k) g = ground arith
  Step-Good (ends r h k) g = ground arith
  Step-Good (stops r r' e) g = ground arith

  Reach-Good : {s t r : SendRepeater M} → Good s t → Reach t r → Good s r
  Reach-Good g here = g
  Reach-Good g (next h st) = Step-Good st (Reach-Good g h)

  start-Good :
      (own : Option Pid) (target : Pid) (msg : M) (interval : ℕ)
      → Good (start own target msg interval) (start own target msg interval)
  unfolding start
  start-Good own target msg interval = record {
    bounded = omega arith;
    goes_on = λ h. refl;
    silent = λ h. refl;
    over = λ h. h;
    same = (refl, refl);
  }

  pub repeater_lem :
      (own : Option Pid) (target : Pid) (msg : M) (interval : ℕ) (s r : SendRepeater M)
      → Reach (start own target msg interval) s
      → s.ended ≡ true
      → Reach s r
      → (s.cancelled ≡ true) × (s.sent ≤ s.ticks) × (r.sent ≡ s.sent) × (r.ended ≡ true)
  repeater_lem own target msg interval s r h e k =
      let g = Reach-Good (start-Good own target msg interval) h in
      let f : Good s r =
        Reach-Good
          (record {
            bounded = g.bounded;
            goes_on = g.goes_on;
            silent = λ x. refl;
            over = λ x. x;
            same = (refl, refl);
          })
          k in
      (ground (arith, g.goes_on), omega (arith, g.bounded), f.silent e, f.over e)
