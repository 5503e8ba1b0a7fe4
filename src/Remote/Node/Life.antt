-- ===== src/Remote/Node/Life.antt =====
-- remote/remote.go: the life of a remote, over the calls of Start and Stop that return.
use distributed_framework.Actor.Pid.{Pid}
use distributed_framework.Remote.Node.{
  Config, Remote, State, state_invalid, state_initialized, state_running, state_stopped, StartError,
  start, stop, new, already_started,
}
use distributed_framework.Common.{
  ℕ, ◌+◌, String, ◌≡◌, Bool, true, false, Option, none, some, arith, nat_eq, if◌then◌else◌,
  nat_keys, string_keys, ◌≤◌, refl, ap, ◌∙◌,
}

-- How many of a call's outcomes are a start without an error.
abbrev succeeded : Option StartError → ℕ
succeeded none = 1
succeeded (some e) = 0

abbrev pub is_running : State → Bool
is_running state_running = true
is_running state_invalid = false
is_running state_initialized = false
is_running state_stopped = false

abbrev pub routers : Option Pid → ℕ
routers none = 0
routers (some p) = 1

module _ {T : Type 0} where
  -- The remotes that a sequence of returning calls leads to, with the number of starts without an
  -- error.
  pub data Run : Remote T → ℕ → Remote T → Type 0 where
    at_rest : (r : Remote T) → Run r 0 r
    starts :
        {r s : Remote T} {n : ℕ} (listen register : Bool) (router : Pid)
        → Run r n s
        → Run r
            (n + succeeded (start listen register router s).1)
            (start listen register router s).0
    stops :
        {r s t : Remote T} {n : ℕ} {waits : Bool} → Run r n s → stop s ≡ some (t, waits) → Run r n t

  abbrev Good : String → Config T → ℕ → Remote T → Type 0
  Good addr config n r =
      (r.addr ≡ addr)
      × (r.config ≡ config)
      × (n ≡ routers r.stream_router_pid)
      × (r.listening ≡ (if is_running r.state then nat_eq n 1 else false))
      × ((r.state ≡ state_initialized) → n ≡ 0)

  start-Good :
      {addr : String} {config : Config T} {n : ℕ} (listen register : Bool) (router : Pid)
      (r : Remote T)
      → Good addr config n r
      → Good addr config
          (n + succeeded (start listen register router r).1)
          (start listen register router r).0
  unfolding start
  start-Good listen register router r g = ground arith

  stop-Good :
      {addr : String} {config : Config T} {n : ℕ} (r t : Remote T) (waits : Bool)
      → stop r ≡ some (t, waits)
      → Good addr config n r
      → Good addr config n t
  unfolding stop
  stop-Good r t waits e g = ground arith

  Run-Good :
      {addr : String} {config : Config T} {s r : Remote T} {n : ℕ}
      → Run s n r
      → Good addr config 0 s
      → Good addr config n r
  Run-Good (at_rest r) g = g
  Run-Good (starts {r} {s} {n} listen register router h) g =
      start-Good listen register router s (Run-Good h g)
  Run-Good (stops {r} {s} {t} {n} {waits} h e) g = stop-Good s t waits e (Run-Good h g)

  new-Good : (addr : String) (config : Config T) → Good addr config 0 (new addr config)
  unfolding new
  new-Good addr config = (refl, refl, refl, refl, λ e. refl)

  -- Over any Start and Stop calls that return, from New on, a remote keeps its address and
  -- configuration, at most one Start succeeds, it has a router exactly when one has, and it
  -- listens exactly when one has and its state is running.
  pub life_lem :
      (addr : String) (config : Config T) (n : ℕ) (r : Remote T)
      → Run (new addr config) n r
      → (r.addr ≡ addr)
        × (r.config ≡ config)
        × (n ≤ 1)
        × (n ≡ routers r.stream_router_pid)
        × (r.listening ≡ (if is_running r.state then nat_eq n 1 else false))
  life_lem addr config n r h =
      let (a, c, k, l, _) = Run-Good h (new-Good addr config) in (a, c, ground (arith, k), k, l)

  stopped-rest : {s r : Remote T} {n : ℕ} → Run s n r → s.state ≡ state_stopped → (r ≡ s) × (n ≡ 0)
  unfolding start stop
  stopped-rest (at_rest r) h = (refl, refl)
  stopped-rest (starts {r} {s} {n} listen register router k) h =
      let (e, z) = stopped-rest k h in ground (arith, e, z, h)
  stopped-rest (stops {r} {s} {t} {n} {waits} k q) h =
      let (e, z) = stopped-rest k h in ground (arith, e, z, h, q)

  stop-ends :
      (s t : Remote T) → stop s ≡ some (t, true) → (t.listening ≡ false) × (t.state ≡ state_stopped)
  unfolding stop
  stop-ends s t e = ground arith

  -- After a Stop with a listener to wait for, the remote does not listen, and any further Start
  -- and Stop calls that return leave it as it is, no Start among them succeeding.
  pub stopped_for_good :
      (s t r : Remote T) (n : ℕ)
      → stop s ≡ some (t, true)
      → Run t n r
      → (t.listening ≡ false) × (r ≡ t) × (n ≡ 0)
  stopped_for_good s t r n e h =
      let (l, d) = stop-ends s t e in let (q, z) = stopped-rest h d in (l, q, z)

  failed-stop :
      (s : Remote T) (listen register again answers : Bool) (router other : Pid)
      (error : StartError)
      → s.state ≡ state_initialized
      → s.listening ≡ false
      → (start listen register router s).1 ≡ some error
      → (stop (start listen register router s).0 ≡ none)
        × (start again answers other (start listen register router s).0
            ≡ ((start listen register router s).0, some already_started))
  unfolding start stop
  failed-stop s listen register again answers router other error i l e = ground arith

  -- Over any Start and Stop calls that return, from New on, when a remote is still in its initial
  -- state and a Start fails, a Stop after it never returns and another Start says that the remote
  -- is started already.
  pub failed_start-stop :
      (addr : String) (config : Config T) (n : ℕ) (s : Remote T)
      (listen register again answers : Bool) (router other : Pid) (error : StartError)
      → Run (new addr config) n s
      → s.state ≡ state_initialized
      → (start listen register router s).1 ≡ some error
      → (stop (start listen register router s).0 ≡ none)
        × (start again answers other (start listen register router s).0
            ≡ ((start listen register router s).0, some already_started))
  failed_start-stop addr config n s listen register again answers router other error h i e =
      let (_, _, _, _, l) = life_lem addr config n s h in
      failed-stop s listen register again answers router other error i
        (l ∙ ap (λ v. if is_running v then nat_eq n 1 else false) i) e
