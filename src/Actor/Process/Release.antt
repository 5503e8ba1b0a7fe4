-- ===== src/Actor/Process/Release.antt =====
-- actor/process.go: what a cleanup lets go of before it tells the receiver.
use distributed_framework.Safemap
use distributed_framework.Common.Dict.{values}
use distributed_framework.Actor.Pid.{Pid}
use distributed_framework.Actor.Process.{
  Process, Res, done, blocked, act, wait_children, forget, release,
}
use distributed_framework.Actor.Messages.{
  Act, Fate, child_ends, child_unknown, child_hangs, wait_poisoned, parent_forgets, inbox_stopped,
  registry_remove, stopped, Env,
}
use distributed_framework.Actor.Process.Ran.{Ran, Ran-done, Ran-step, Ran-act, Ran-bind}
use distributed_framework.Common.{
  ◌≡◌, refl, sym, ap, ap₂, ◌∙◌, ◌≢◌, subst, String, false, Option, none, some, List, [], ◌∷◌, ◌++◌,
  map, append_assoc, nat_keys, string_keys,
}

-- No child of the process keeps it waiting for ever.
abbrev pub NoneHangs : {R U : Type 0} → Process R U → Type 0
NoneHangs p = (pid : Pid) → p.fates pid ≢ child_hangs

-- What a process with this parent does first.
abbrev pub parent_told : {U : Type 0} → Option Pid → String → List (Act U)
parent_told none id = []
parent_told (some parent) id = parent_forgets id ∷ []

module _ {R U : Type 0} where
  Ran-wait_children :
      (pids : List Pid) (p : Process R U)
      → NoneHangs p
      → Ran p (wait_children pids p) (map wait_poisoned pids) p.sender
  unfolding wait_children
  Ran-wait_children [] p h = Ran-done p
  Ran-wait_children (pid ∷ pids) p h =
      by_fate (λ q h'. Ran-wait_children pids q h') (p.fates pid) refl
    where
      from :
          ((q : Process R U)
            → NoneHangs q
            → Ran q (wait_children pids q) (map wait_poisoned pids) q.sender)
          → (e : Env R)
          → Ran p
              (wait_children pids (record p { env = e; log = p.log ++ wait_poisoned pid ∷ [] }))
              (wait_poisoned pid ∷ map wait_poisoned pids)
              p.sender
      from again e =
          Ran-bind p (done (record p { env = e; log = p.log ++ wait_poisoned pid ∷ [] }))
            (wait_children pids) (wait_poisoned pid ∷ []) (map wait_poisoned pids) p.sender p.sender
            (Ran-step p (wait_poisoned pid) e)
            λ q same s.
              subst (λ t. Ran q (wait_children pids q) (map wait_poisoned pids) t) s
                (again q (λ x w. h x (ap (λ f. f x) (sym same.fates) ∙ w)))

      by_fate :
          ((q : Process R U)
            → NoneHangs q
            → Ran q (wait_children pids q) (map wait_poisoned pids) q.sender)
          → (w : Fate) → p.fates pid ≡ w
          → Ran p
              (elim w [
                | child_ends ↦ wait_children pids (record p {
                  env = record p.env { children = Safemap.remove p.env.children pid.id };
                  log = p.log ++ wait_poisoned pid ∷ [];
                })
                | child_unknown ↦ wait_children pids (act p (wait_poisoned pid))
                | child_hangs ↦ blocked (act p (wait_poisoned pid))
              ])
              (wait_poisoned pid ∷ map wait_poisoned pids)
              p.sender
      by_fate again child_ends e =
          from again (record p.env { children = Safemap.remove p.env.children pid.id })
      by_fate again child_unknown e = from again p.env
      by_fate again child_hangs e = absurd (h pid e)

  Ran-forget : (p : Process R U) → Ran p (done (forget p)) (parent_told p.parent p.pid.id) p.sender
  unfolding forget
  Ran-forget p = by_parent p.parent
    where
      by_parent :
          (o : Option Pid)
          → Ran p
              (done (elim o [ none ↦ p | some _ ↦ act p (parent_forgets p.pid.id) ]))
              (parent_told o p.pid.id)
              p.sender
      by_parent none = Ran-done p
      by_parent (some q) = Ran-act p (parent_forgets p.pid.id)

  -- What a cleanup does before it tells the receiver.
  abbrev pub releases : Process R U → List (Act U)
  releases p =
      parent_told p.parent p.pid.id
      ++ (map wait_poisoned (values p.env.children.entries)
          ++ inbox_stopped ∷ registry_remove p.pid ∷ [])

  pub record Released (p : Process R U) (r : Res R U) : Type 0 where
    pub final : Process R U
    pub is_done : r ≡ done final
    pub logged : final.log ≡ p.log ++ releases p
    pub sender_left : final.sender ≡ p.sender
    pub message : final.message ≡ stopped
    pub pid : final.pid ≡ p.pid
    pub middleware : final.middleware ≡ p.middleware
    pub inbox_running : final.inbox_running ≡ false
    pub registered : final.registered ≡ false

  pub release-Released : (p : Process R U) → NoneHangs p → Released p (release p)
  unfolding release
  release-Released p h =
      let kids : List Pid = values p.env.children.entries in
      let a : Ran p (wait_children kids (forget p))
          (parent_told p.parent p.pid.id ++ map wait_poisoned kids) p.sender =
        Ran-bind p (done (forget p)) (wait_children kids) (parent_told p.parent p.pid.id)
          (map wait_poisoned kids) p.sender p.sender (Ran-forget p)
          λ q same s.
            subst (λ t. Ran q (wait_children kids q) (map wait_poisoned kids) t) s
              (Ran-wait_children kids q (λ x w. h x (ap (λ f. f x) (sym same.fates) ∙ w))) in
      record {
        final = record a.final {
          inbox_running = false;
          registered = false;
          message = stopped;
          log = a.final.log ++ inbox_stopped ∷ registry_remove a.final.pid ∷ [];
        };
        is_done = rw (a.is_done) refl;
        logged =
            ap₂ (λ l i. l ++ inbox_stopped ∷ registry_remove i ∷ []) a.logged a.same.pid
            ∙ append_assoc p.log _ (inbox_stopped ∷ registry_remove p.pid ∷ [])
            ∙ ap (λ l. p.log ++ l)
                (append_assoc (parent_told p.parent p.pid.id) (map wait_poisoned kids)
                  (inbox_stopped ∷ registry_remove p.pid ∷ []));
        sender_left = a.sender_left;
        message = refl;
        pid = a.same.pid;
        middleware = a.same.middleware;
        inbox_running = refl;
        registered = refl;
      }
