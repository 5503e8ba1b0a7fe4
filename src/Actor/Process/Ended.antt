-- ===== src/Actor/Process/Ended.antt =====
-- actor/process.go: the clean end of a process.
use distributed_framework.Actor.Pid.{Pid}
use distributed_framework.Actor.Process.{
  Process, Res, done, act, call, apply_middleware, cleanup, release, defer_cancel,
}
use distributed_framework.Actor.Messages.{
  stopped, Envelope, actor_stopped, ReceiveFunc, Act, handled, broadcast, cancelled,
}
use distributed_framework.Actor.Process.Ran.{
  Handles, Same, Ran, handled_of, last_sender, wrapped, Ran-call-wrapped,
}
use distributed_framework.Common.Dict.{values}
use distributed_framework.Actor.Messages.{Env, wait_poisoned, inbox_stopped, registry_remove}
use distributed_framework.Actor.Process.Release.{
  NoneHangs, parent_told, releases, Released, release-Released,
}
use distributed_framework.Actor.Process.Effect.{env_after}
use distributed_framework.Common.{
  ℕ, ◌≡◌, refl, ap, subst, ◌∙◌, false, List, [], ◌∷◌, ◌++◌, map, nat_keys, string_keys, ap₂, Option,
  some, sym, append_assoc,
}

module _ {R U : Type 0} (receive : ReceiveFunc R U)
    (ms : List (ReceiveFunc R U → ReceiveFunc R U)) where
  -- A process after its clean end: it has handled `msgs`, has let go of what it held, has told the
  -- receiver and the event stream, and has called `cancel`.
  pub record Ended (p : Process R U) (msgs : List (Envelope U)) (c : ℕ) (r : Res R U) : Type 0 where
    pub final : Process R U
    pub is_done : r ≡ done final
    pub logged :
        final.log
        ≡ p.log
          ++ (map handled_of msgs
              ++ (parent_told p.parent p.pid.id
                  ++ (map wait_poisoned
                        (values (env_after (wrapped receive ms) msgs p.env).children.entries)
                      ++ inbox_stopped
                        ∷ registry_remove p.pid
                        ∷ handled stopped (last_sender p.sender msgs)
                        ∷ broadcast (actor_stopped p.pid)
                        ∷ cancelled c
                        ∷ [])))
    pub inbox_running : final.inbox_running ≡ false
    pub registered : final.registered ≡ false

  -- The actions of an end, with what the process is by then.
  abbrev ending : Option Pid → Pid → Env R → Option Pid → ℕ → List (Act U)
  ending parent pid env sender c =
      parent_told parent pid.id
      ++ (map wait_poisoned (values env.children.entries)
          ++ inbox_stopped
            ∷ registry_remove pid
            ∷ handled stopped sender
            ∷ broadcast (actor_stopped pid)
            ∷ cancelled c
            ∷ [])

  pub Ended-cleanup :
      (p q : Process R U) (msgs : List (Envelope U)) (c : ℕ)
      → Same p q
      → q.log ≡ p.log ++ map handled_of msgs
      → q.sender ≡ last_sender p.sender msgs
      → q.env ≡ env_after (wrapped receive ms) msgs p.env
      → p.middleware ≡ ms
      → NoneHangs p
      → Handles (wrapped receive ms) stopped
      → Ended p msgs c (cleanup receive q (some c))
  unfolding cleanup defer_cancel
  Ended-cleanup p q msgs c same logged sent left e waits h = record {
    final = act (act a.final (broadcast (actor_stopped a.final.pid))) (cancelled c);
    is_done = rw (w.is_done, a.is_done, defer_cancel) refl;
    logged =
        ap₂ (λ l i. (l ++ broadcast (actor_stopped i) ∷ []) ++ cancelled c ∷ []) told
          (a.same.pid ∙ w.pid)
        ∙ gathered
        ∙ ap₂ (λ l x. l ++ x) logged
            (ap₂ (λ (i : Option Pid × Pid) (x : Env R × Option Pid). ending i.0 i.1 x.0 x.1 c)
              (ap₂ (λ i j. (i, j)) same.parent same.pid) (ap₂ (λ i j. (i, j)) left sent))
        ∙ append_assoc p.log (map handled_of msgs) _;
    inbox_running = a.same.inbox_running ∙ w.inbox_running;
    registered = a.same.registered ∙ w.registered;
  }
    where
      w : Released q (release q)
      w = release-Released q (λ x h'. waits x (ap (λ f. f x) (sym same.fates) ∙ h'))

      a :
          Ran w.final
            (call (apply_middleware receive w.final.middleware) w.final)
            (handled w.final.message w.final.sender ∷ [])
            w.final.sender
      a =
          Ran-call-wrapped receive ms w.final (w.middleware ∙ same.middleware ∙ e)
            (subst (Handles (wrapped receive ms)) (sym w.message) h)

      told : a.final.log ≡ (q.log ++ releases q) ++ handled stopped q.sender ∷ []
      told =
          a.logged
          ∙ ap₂ (λ l b. l ++ b ∷ []) w.logged (ap₂ (λ m s. handled m s) w.message w.sender_left)

      gathered :
          (((q.log ++ releases q) ++ handled stopped q.sender ∷ [])
              ++ broadcast (actor_stopped q.pid) ∷ [])
            ++ cancelled c ∷ []
          ≡ q.log ++ ending q.parent q.pid q.env q.sender c
      gathered = simp append_assoc refl
