-- ===== src/Actor/Process/Good.antt =====
-- What a process that may still restart leaves behind: the measure of its termination.
use distributed_framework.Safemap
use distributed_framework.Common.Dict.{values}
use distributed_framework.Actor.Pid.{Pid}
use distributed_framework.Actor.Process.{
  Process, Res, done, panicked, out_of_fuel, ◌>>=◌, int32_size, call, defer_cancel,
  apply_middleware, invoke_msg, release, cleanup, drain, go_on, invoke_loop, blocked, wait_children,
  act, forget,
}
use distributed_framework.Actor.Messages.{
  internal_error, Message, Env, Outcome, returns, panics, ReceiveFunc, Envelope, is_pill, pill,
  user, stopped, initialized, started, Fate, child_ends, child_unknown, child_hangs, wait_poisoned,
  parent_forgets, child_hangs, wait_poisoned, parent_forgets, Fate,
}
use distributed_framework.Common.{
  ℕ, ◌+◌, ◌-◌, ◌%◌, ◌≤◌, ◌<◌, ◌≡◌, refl, ap, ◌∙◌, ◌≢◌, Option, nat_keys, string_keys, none, some,
  List, [], ◌∷◌, inl, inr, Bool-cases, Bool, true, false, arith, if◌then◌else◌, drop,
}

-- How often a process may still restart: `int32` counts up to the limit, round the sign if need be.
abbrev pub budget : {R U : Type 0} → Process R U → ℕ
budget p = (p.max_restarts + int32_size - p.restarts) % int32_size

-- A restart uses one up.
pub budget_step :
    (r m : ℕ)
    → r < int32_size
    → m < int32_size
    → r ≢ m
    → (m + int32_size - (r + 1) % int32_size) % int32_size < (m + int32_size - r) % int32_size
budget_step r m hr hm ne = omega arith

-- Both counters are `int32` bit patterns, the middleware is the given one, and no child hangs.
abbrev pub InRange :
    {R U : Type 0} → List (ReceiveFunc R U → ReceiveFunc R U) → Process R U → Type 0
InRange ms p =
    (p.restarts < int32_size)
    × (p.max_restarts < int32_size)
    × (p.middleware ≡ ms)
    × ((pid : Pid) → p.fates pid ≢ child_hangs)

-- A receive function that raises no `*InternalError`.
abbrev pub Plain : {R U : Type 0} → ReceiveFunc R U → Type 0
Plain {R} {U} f =
    (m : Message U) (s : Option Pid) (e e' : Env R) → f m s e ≢ panics internal_error e'

module _ {R U : Type 0} (ms : List (ReceiveFunc R U → ReceiveFunc R U)) where
  -- A result that is there, with at most `b` restarts left, and no `*InternalError` on the way.
  abbrev pub Good : ℕ → Res R U → Type 0
  Good b (done p) = (budget p ≤ b) × InRange ms p
  Good b (panicked v p) = (budget p ≤ b) × InRange ms p × (v ≢ internal_error)
  Good b (blocked p) = ⊥
  Good b out_of_fuel = ⊥

  pub >>=-Good :
      (b : ℕ) (r : Res R U) (k : Process R U → Res R U)
      → Good b r
      → ((p : Process R U) → budget p ≤ b → InRange ms p → Good b (k p))
      → Good b (r >>= k)
  >>=-Good b (done p) k h f = f p h.0 h.1
  >>=-Good b (panicked v p) k h f = h
  >>=-Good b (blocked p) k h f = h
  >>=-Good b out_of_fuel k h f = h

  -- It returned or panicked.
  pub Good-ends :
      (b : ℕ) (r : Res R U) → Good b r → (r ≢ out_of_fuel) × ((q : Process R U) → r ≢ blocked q)
  Good-ends b (done p) h = (λ e. cc, λ q e. cc)
  Good-ends b (panicked v p) h = (λ e. cc, λ q e. cc)
  Good-ends b (blocked p) h = absurd h
  Good-ends b out_of_fuel h = absurd h

  pub call-Good :
      (f : ReceiveFunc R U) (p : Process R U) (b : ℕ)
      → Plain f
      → budget p ≤ b
      → InRange ms p
      → Good b (call f p)
  unfolding call
  call-Good f p b plain h r = call_cases (f p.message p.sender p.env) refl
    where
      call_cases : (o : Outcome R) → f p.message p.sender p.env ≡ o → Good b (call f p)
      call_cases (returns env) e = rw (e, call) (h, r)
      call_cases (panics v env) e =
          rw (e, call)
            (h, r, λ q. plain p.message p.sender p.env env (e ∙ ap (λ w. panics w env) q))

  pub defer_cancel-Good :
      (b : ℕ) (c : Option ℕ) (r : Res R U) → Good b r → Good b (defer_cancel c r)
  unfolding defer_cancel
  defer_cancel-Good b none (done p) h = (h.0, h.1, λ e. cc)
  defer_cancel-Good b none (panicked v p) h = (h.0, h.1, λ e. cc)
  defer_cancel-Good b none (blocked p) h = h
  defer_cancel-Good b none out_of_fuel h = h
  defer_cancel-Good b (some c) (done p) h = h
  defer_cancel-Good b (some c) (panicked v p) h = h
  defer_cancel-Good b (some c) (blocked p) h = h
  defer_cancel-Good b (some c) out_of_fuel h = h

module _ {R U : Type 0} (receive : ReceiveFunc R U) (ms : List (ReceiveFunc R U → ReceiveFunc R U))
    (plain : Plain receive) (plain_wrapped : Plain (apply_middleware receive ms)) where
  pub call_wrapped-Good :
      (p : Process R U) (b : ℕ)
      → budget p ≤ b
      → InRange ms p
      → Good ms b (call (apply_middleware receive p.middleware) p)
  call_wrapped-Good p b h r = call-Good ms _ p b (rw r.2 plain_wrapped) h r

  pub invoke_msg-Good :
      (p : Process R U) (m : Envelope U) (b : ℕ)
      → budget p ≤ b
      → InRange ms p
      → Good ms b (invoke_msg receive p m)
  unfolding invoke_msg
  invoke_msg-Good p m b h r = elim (Bool-cases (is_pill m.msg)) [
    | inl e ↦ rw (e, invoke_msg) (h, r)
    | inr e ↦ rw (e, invoke_msg) (by_middleware p.middleware refl)
  ]
    where
      q : Process R U
      q = record p { message = m.msg; sender = m.sender }

      by_middleware :
          (l : List (ReceiveFunc R U → ReceiveFunc R U))
          → p.middleware ≡ l
          → Good ms b (elim l [
            | [] ↦ call receive q
            | _ ∷ _ ↦ call (apply_middleware receive p.middleware) q
          ])
      by_middleware [] e = call-Good ms receive q b plain h r
      by_middleware (_ ∷ _) e = call_wrapped-Good q b h r

  wait_children-Good :
      (pids : List Pid) (p : Process R U) (b : ℕ)
      → budget p ≤ b
      → InRange ms p
      → Good ms b (wait_children pids p)
  unfolding wait_children
  wait_children-Good [] p b h r = (h, r)
  wait_children-Good (pid ∷ pids) p b h r =
      by_fate (λ q h' r'. wait_children-Good pids q b h' r') (p.fates pid) refl
    where
      q : Process R U
      q = act p (wait_poisoned pid)

      by_fate :
          ((x : Process R U) → budget x ≤ b → InRange ms x → Good ms b (wait_children pids x))
          → (w : Fate) → p.fates pid ≡ w
          → Good ms b (elim w [
            | child_ends ↦ wait_children pids (record q {
              env = record q.env { children = Safemap.remove q.env.children pid.id };
            })
            | child_unknown ↦ wait_children pids q
            | child_hangs ↦ blocked q
          ])
      by_fate again child_ends e = again _ h r
      by_fate again child_unknown e = again _ h r
      by_fate again child_hangs e = r.3 pid e

  forget-Good :
      (p : Process R U) (b : ℕ)
      → budget p ≤ b
      → InRange ms p
      → (budget (forget p) ≤ b) × InRange ms (forget p)
  unfolding forget
  forget-Good p b h r = by_parent p.parent
    where
      by_parent :
          (o : Option Pid)
          → let q : Process R U = elim o [ none ↦ p | some _ ↦ act p (parent_forgets p.pid.id) ] in
            (budget q ≤ b) × InRange ms q
      by_parent none = (h, r)
      by_parent (some q) = (h, r)

  release-Good : (p : Process R U) (b : ℕ) → budget p ≤ b → InRange ms p → Good ms b (release p)
  unfolding release
  release-Good p b h r =
      let g : (budget (forget p) ≤ b) × InRange ms (forget p) = forget-Good p b h r in
      >>=-Good ms b (wait_children (values p.env.children.entries) (forget p)) _
        (wait_children-Good (values p.env.children.entries) (forget p) b g.0 g.1)
        (λ q h' r'. (h', r'))

  pub cleanup-Good :
      (p : Process R U) (c : Option ℕ) (b : ℕ)
      → budget p ≤ b
      → InRange ms p
      → Good ms b (cleanup receive p c)
  unfolding cleanup
  cleanup-Good p c b h r = defer_cancel-Good ms b c _ (
      >>=-Good ms b _ _
        (>>=-Good ms b _ _ (release-Good p b h r) (λ q h' r'. call_wrapped-Good q b h' r'))
        (λ q h' r'. (h', r')))

  pub drain-Good :
      (l : List (Envelope U)) (p : Process R U) (b : ℕ)
      → budget p ≤ b
      → InRange ms p
      → Good ms b (drain receive l p)
  unfolding drain
  drain-Good [] p b h r = (h, r)
  drain-Good (m ∷ l) p b h r =
      >>=-Good ms b _ _ (invoke_msg-Good p m b h r) (λ q h' r'. drain-Good l q b h' r')

  pub go_on-Good :
      (b n : ℕ) (res : Res R U) (k : Process R U → Res R U × ℕ)
      → Good ms b res
      → ((q : Process R U) → budget q ≤ b → InRange ms q → Good ms b (k q).0)
      → Good ms b (go_on n res k).0
  go_on-Good b n (done q) k g f = f q g.0 g.1
  go_on-Good b n (panicked v q) k g f = g
  go_on-Good b n (blocked q) k g f = g
  go_on-Good b n out_of_fuel k g f = g

  pub invoke_loop-Good :
      (msgs l : List (Envelope U)) (nproc processed : ℕ) (p : Process R U) (b : ℕ)
      → budget p ≤ b
      → InRange ms p
      → Good ms b (invoke_loop receive msgs l nproc processed p).0
  unfolding invoke_loop
  invoke_loop-Good msgs [] nproc processed p b h r = (h, r)
  invoke_loop-Good msgs (m ∷ l) nproc processed p b h r =
      by_message m.msg λ q h' r'. invoke_loop-Good msgs l (nproc + 1) (processed + 1) q b h' r'
    where
      drained : (g : Bool) → Good ms b (if g then drain receive (drop processed msgs) p else done p)
      drained true = drain-Good (drop processed msgs) p b h r
      drained false = (h, r)

      by_message :
          (msg : Message U)
          → ((q : Process R U)
              → budget q ≤ b
              → InRange ms q
              → Good ms b (invoke_loop receive msgs l (nproc + 1) (processed + 1) q).0)
          → let t : Res R U × ℕ = elim msg [
            | pill cancel graceful ↦ (
              (if graceful then drain receive (drop processed msgs) p else done p) >>= λ q.
                  cleanup receive q cancel,
              nproc + 1,
            )
            | _ ↦
                go_on
                  (nproc + 1)
                  (invoke_msg receive p m)
                  λ q. invoke_loop receive msgs l (nproc + 1) (processed + 1) q
          ] in
            Good ms b t.0
      by_message (pill c g) ih = >>=-Good ms b _ _ (drained g) (λ q h' r'. cleanup-Good q c b h' r')
      by_message initialized ih = go_on-Good b _ _ _ (invoke_msg-Good p m b h r) ih
      by_message started ih = go_on-Good b _ _ _ (invoke_msg-Good p m b h r) ih
      by_message stopped ih = go_on-Good b _ _ _ (invoke_msg-Good p m b h r) ih
      by_message (user u) ih = go_on-Good b _ _ _ (invoke_msg-Good p m b h r) ih
