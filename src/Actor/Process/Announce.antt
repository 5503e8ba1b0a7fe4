-- ===== src/Actor/Process/Announce.antt =====
-- actor/process.go: what a start announces, to the receiver and on the event stream.
use distributed_framework.Actor.Pid.{Pid}
use distributed_framework.Actor.Process.{
  Process, Res, ◌>>=◌, act, announce, done, call, apply_middleware,
}
use distributed_framework.Actor.Messages.{
  Message, initialized, started, Event, actor_initialized, actor_started, ReceiveFunc, Act, handled,
  broadcast,
}
use mathlib.Core.Path.{subst₂}
use distributed_framework.Actor.Process.Ran.{
  Handles, Ran, Ran-bind, wrapped, Ran-call-wrapped, Ran-message, Ran-act,
}
use distributed_framework.Actor.Process.Effect.{env_at, call-env, bind-done, done-injective}
use distributed_framework.Common.{
  ◌≡◌, Option, List, [], ◌∷◌, nat_keys, string_keys, ◌∙◌, sym, ap, ap₂,
}

-- What a started process logs before it takes up its messages.
abbrev pub announcements : {U : Type 0} → Pid → Option Pid → List (Act U)
announcements pid sender =
    handled initialized sender
    ∷ broadcast (actor_initialized pid)
    ∷ handled started sender
    ∷ broadcast (actor_started pid)
    ∷ []

-- The process with a new receiver.
abbrev pub produced : {R U : Type 0} → R → Process R U → Process R U
produced produce p = record p { env = record p.env { receiver = produce } }

module _ {R U : Type 0} (receive : ReceiveFunc R U)
    (ms : List (ReceiveFunc R U → ReceiveFunc R U)) where
  pub Ran-announce :
      (restart : Process R U → Res R U) (m : Message U) (ev : Pid → Event) (p : Process R U)
      → p.middleware ≡ ms
      → Handles (wrapped receive ms) m
      → Ran p
          (announce receive restart m ev p)
          (handled m p.sender ∷ broadcast (ev p.pid) ∷ [])
          p.sender
  unfolding announce
  Ran-announce restart m ev p e h =
      Ran-bind p _ _ (handled m p.sender ∷ []) (broadcast (ev p.pid) ∷ []) p.sender p.sender
        (Ran-message p m p.sender p.sender _ (handled m p.sender ∷ [])
          (Ran-call-wrapped receive ms (record p { message = m }) e h))
        λ q same s.
          subst₂ (λ i t. Ran q (done (act q (broadcast (ev q.pid)))) (broadcast (ev i) ∷ []) t)
            same.pid s (Ran-act q (broadcast (ev q.pid)))

  pub announces :
      (restart : Process R U → Res R U) (produce : R) (p : Process R U)
      → p.middleware ≡ ms
      → Handles (wrapped receive ms) initialized
      → Handles (wrapped receive ms) started
      → Ran
          (produced produce p)
          (announce receive restart initialized actor_initialized (produced produce p)
            >>= announce receive restart started actor_started)
          (announcements p.pid p.sender)
          p.sender
  announces restart produce p e hi hs =
      Ran-bind (produced produce p) _ (announce receive restart started actor_started)
        (handled initialized p.sender ∷ broadcast (actor_initialized p.pid) ∷ [])
        (handled started p.sender ∷ broadcast (actor_started p.pid) ∷ []) p.sender p.sender
        (Ran-announce restart initialized actor_initialized (produced produce p) e hi)
        λ q same s.
          subst₂
            (λ i t'.
              Ran q (announce receive restart started actor_started q)
                (handled started t' ∷ broadcast (actor_started i) ∷ []) t')
            same.pid s (Ran-announce restart started actor_started q (same.middleware ∙ e) hs)

  announce-env :
      (restart : Process R U → Res R U) (m : Message U) (ev : Pid → Event) (p q : Process R U)
      → p.middleware ≡ ms
      → announce receive restart m ev p ≡ done q
      → q.env ≡ env_at (wrapped receive ms) m p.sender p.env
  unfolding announce
  announce-env restart m ev p q e h =
      let (x, called, rest) =
        bind-done (call (apply_middleware receive p.middleware) (record p { message = m }))
          (λ x. done (act x (broadcast (ev x.pid)))) q h in
      ap (λ (y : Process R U). y.env) (done-injective (sym rest))
      ∙ call-env (wrapped receive ms) (record p { message = m }) x
          (ap (λ l. call (apply_middleware receive l) (record p { message = m })) (sym e) ∙ called)

  -- What the announcements leave of the context with the new receiver.
  pub announces-env :
      (restart : Process R U → Res R U) (produce : R) (p q : Process R U)
      → p.middleware ≡ ms
      → Handles (wrapped receive ms) initialized
      → announce receive restart initialized actor_initialized (produced produce p)
          >>= announce receive restart started actor_started
        ≡ done q
      → q.env
        ≡ env_at
            (wrapped receive ms)
            started
            p.sender
            (env_at (wrapped receive ms) initialized p.sender (record p.env { receiver = produce }))
  announces-env restart produce p q e hi h =
      let (x, first, second) =
        bind-done (announce receive restart initialized actor_initialized (produced produce p))
          (announce receive restart started actor_started) q h in
      let a = Ran-announce restart initialized actor_initialized (produced produce p) e hi in
      let same : x ≡ a.final = done-injective (sym first ∙ a.is_done) in
      announce-env restart started actor_started x q
        (ap (λ (y : Process R U). y.middleware) same ∙ a.same.middleware ∙ e) second
      ∙ ap₂ (λ s v. env_at (wrapped receive ms) started s v)
          (ap (λ (y : Process R U). y.sender) same ∙ a.sender_left)
          (announce-env restart initialized actor_initialized (produced produce p) x e first)
