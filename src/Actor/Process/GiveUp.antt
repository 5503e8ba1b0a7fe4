-- ===== src/Actor/Process/GiveUp.antt =====
-- actor/process.go: a crash when the restarts are used up.
use distributed_framework.Actor.Process.{
  Process, Res, done, panicked, act, call, apply_middleware, try_restart, cleanup, release,
  defer_cancel,
}
use distributed_framework.Actor.Messages.{
  Reason, nil_call, failure, actor_stopped, actor_max_restarts_exceeded, Outcome, returns, panics,
  ReceiveFunc, handled, broadcast,
}
use distributed_framework.Actor.Messages.{Env, Envelope, stopped, is_pill}
use distributed_framework.Actor.Process.{recover_invoke, invoke}
use distributed_framework.Actor.Process.Release.{NoneHangs, Released, release-Released}
use distributed_framework.Actor.Process.Ran.{Takes, Crashes, Handles, wrapped, Ran, Ran-call}
use distributed_framework.Actor.Process.Recover.{Crashed, crash-Crashed}
use distributed_framework.Common.{
  ℕ, ◌≡◌, refl, ap, ◌⊎◌, inl, inr, none, [], ◌∷◌, ◌++◌, nat_eq_iff, nat_keys, string_keys, sym,
  subst, ◌∙◌, false, List, All,
}

module _ {R U : Type 0} (receive : ReceiveFunc R U) where
  -- A call returns or panics, and leaves the inbox and the registry alone.
  record Called (p : Process R U) (r : Res R U) : Type 0 where
    after : Process R U
    outcome : (r ≡ done after) ⊎ ((v : Reason) × (r ≡ panicked v after))
    inbox_running : after.inbox_running ≡ p.inbox_running
    registered : after.registered ≡ p.registered

  call-Called : (f : ReceiveFunc R U) (p : Process R U) → Called p (call f p)
  unfolding call
  call-Called f p = by_outcome (f p.message p.sender p.env) refl
    where
      left : Env R → Process R U
      left e = record p { env = e; log = p.log ++ handled p.message p.sender ∷ [] }

      by_outcome : (o : Outcome R) → f p.message p.sender p.env ≡ o → Called p (call f p)
      by_outcome (returns e) h = record {
        after = left e;
        outcome = inl (rw (h, call) refl);
        inbox_running = refl;
        registered = refl;
      }
      by_outcome (panics v e) h = record {
        after = left e;
        outcome = inr (v, rw (h, call) refl);
        inbox_running = refl;
        registered = refl;
      }

  -- What has given up: the run-time panic of a nil function, out of a process that is not
  -- registered and has no running inbox.
  pub record GivenUp (r : Res R U) : Type 0 where
    pub final : Process R U
    pub is_panic : r ≡ panicked nil_call final
    pub inbox_running : final.inbox_running ≡ false
    pub registered : final.registered ≡ false

  -- `cleanup(nil)` never returns: its deferred call of the nil function panics.
  cleanup-GivenUp : (p : Process R U) → NoneHangs p → GivenUp (cleanup receive p none)
  unfolding cleanup defer_cancel
  cleanup-GivenUp p h = elim a.outcome [
    | inl e ↦ record {
      final = act a.after (broadcast (actor_stopped a.after.pid));
      is_panic = rw (w.is_done, e, defer_cancel) refl;
      inbox_running = a.inbox_running ∙ w.inbox_running;
      registered = a.registered ∙ w.registered;
    }
    | inr (v, e) ↦ record {
      final = a.after;
      is_panic = rw (w.is_done, e, defer_cancel) refl;
      inbox_running = a.inbox_running ∙ w.inbox_running;
      registered = a.registered ∙ w.registered;
    }
  ]
    where
      w : Released p (release p)
      w = release-Released p h

      a : Called w.final (call (apply_middleware receive w.final.middleware) w.final)
      a = call-Called (apply_middleware receive w.final.middleware) w.final

  try_restart-GivenUp :
      (restart : Process R U → Res R U) (n : ℕ) (p : Process R U)
      → p.restarts ≡ p.max_restarts
      → NoneHangs p
      → GivenUp (try_restart receive restart (failure n) p)
  unfolding try_restart
  try_restart-GivenUp restart n p e h =
      rw ((nat_eq_iff p.restarts p.max_restarts).1 e, try_restart)
        (cleanup-GivenUp (act p (broadcast (actor_max_restarts_exceeded p.pid))) h)

module _ {R U : Type 0} (receive : ReceiveFunc R U)
    (ms : List (ReceiveFunc R U → ReceiveFunc R U)) where
  -- A batch that crashes the receiver when the restarts are used up ends in the run-time panic of
  -- a nil function, with the process no longer registered and its inbox stopped, whatever the
  -- receiver does with the Stopped of the cleanup, since cleanup is called with a nil cancel
  -- function. The crash is at a message that is no pill and its value is no InternalError; the
  -- receiver handles the messages before it and the Stopped that it gets directly after the crash,
  -- and no child keeps the process waiting for ever.
  pub gives_up :
      (restart : Process R U → Res R U) (n : ℕ) (pre : List (Envelope U)) (bad : Envelope U)
      (post : List (Envelope U)) (p : Process R U)
      → p.middleware ≡ ms
      → p.restarts ≡ p.max_restarts
      → All (Takes (wrapped receive ms)) pre
      → is_pill bad.msg ≡ false
      → Crashes (wrapped receive ms) bad.msg (failure n)
      → Handles receive stopped
      → NoneHangs p
      → GivenUp receive (invoke receive restart (pre ++ bad ∷ post) p)
  unfolding recover_invoke
  gives_up restart n pre bad post p e used tpre np c hstop waits =
      let k : Crashed receive ms restart n pre bad post p =
        crash-Crashed receive ms restart n pre bad post p e tpre np c in
      let a : Ran (record k.at { message = stopped })
          (call receive (record k.at { message = stopped })) (handled stopped k.at.sender ∷ [])
          k.at.sender =
        Ran-call receive (record k.at { message = stopped }) hstop in
      subst (GivenUp receive) (sym k.goes) (
        rw (a.is_done, recover_invoke)
          (try_restart-GivenUp receive restart n (record a.final { mbuffer = post })
            (a.same.restarts
              ∙ k.same.restarts
              ∙ used
              ∙ sym (a.same.max_restarts ∙ k.same.max_restarts))
            (λ x h. waits x (ap (λ f. f x) (sym (a.same.fates ∙ k.same.fates)) ∙ h))))
