-- ===== src/Actor/Process/Effect.antt =====
-- actor/process.go: what a run makes of the part of the context that a receiver may change.
use distributed_framework.Actor.Pid.{Pid}
use distributed_framework.Actor.Process.{
  Process, Res, done, panicked, ◌>>=◌, call, apply_middleware, invoke_msg, drain, blocked,
  out_of_fuel,
}
use distributed_framework.Actor.Messages.{
  Message, Envelope, Env, Outcome, returns, panics, ReceiveFunc, is_pill, handled,
}
use distributed_framework.Actor.Process.Ran.{
  last_sender, Takes, wrapped, Ran, handled_of, invoke_msg_lem, Ran-invoke_msg,
}
use distributed_framework.Common.{
  ◌≡◌, refl, sym, ap, ◌∙◌, Option, List, [], ◌∷◌, All, false, nat_keys, string_keys, ◌++◌,
}

-- What a receive function leaves at a message, whether it returns or panics.
unfoldable pub env_at : {R U : Type 0} → ReceiveFunc R U → Message U → Option Pid → Env R → Env R
env_at f m s e = elim (f m s e) [ returns e' ↦ e' | panics v e' ↦ e' ]

-- What it leaves at the messages of a list, one after the other.
unfoldable pub env_after : {R U : Type 0} → ReceiveFunc R U → List (Envelope U) → Env R → Env R
unfolding env_at
env_after f [] e = e
env_after f (m ∷ msgs) e = env_after f msgs (env_at f m.msg m.sender e)

pub env_after-append :
    {R U : Type 0} (f : ReceiveFunc R U) (xs ys : List (Envelope U)) (e : Env R)
    → env_after f (xs ++ ys) e ≡ env_after f ys (env_after f xs e)
unfolding env_after
env_after-append f [] ys e = refl
env_after-append f (x ∷ xs) ys e = env_after-append f xs ys (env_at f x.msg x.sender e)

pub last_sender-append :
    {U : Type 0} (s : Option Pid) (xs ys : List (Envelope U))
    → last_sender s (xs ++ ys) ≡ last_sender (last_sender s xs) ys
last_sender-append s [] ys = refl
last_sender-append s (x ∷ xs) ys = last_sender-append x.sender xs ys

module _ {R U : Type 0} where
  pub done-injective : {p q : Process R U} → done p ≡ done q → p ≡ q
  done-injective e = cc

  pub call-env :
      (f : ReceiveFunc R U) (p q : Process R U)
      → call f p ≡ done q
      → q.env ≡ env_at f p.message p.sender p.env
  unfolding call env_at
  call-env f p q h = by_outcome (f p.message p.sender p.env) refl
    where
      by_outcome :
          (o : Outcome R)
          → f p.message p.sender p.env ≡ o
          → q.env ≡ env_at f p.message p.sender p.env
      by_outcome (returns e') h' =
          let c : call f p
              ≡ done (record p { env = e'; log = p.log ++ handled p.message p.sender ∷ [] }) =
            rw (h', call) refl in
          sym (ap (λ (x : Process R U). x.env) (done-injective (sym c ∙ h))) ∙ rw (h', env_at) refl
      by_outcome (panics v e') h' =
          let c : call f p
              ≡ panicked v (record p { env = e'; log = p.log ++ handled p.message p.sender ∷ [] }) =
            rw (h', call) refl in
          cc

  -- The process between the two parts of a run that returns.
  pub bind-done :
      (r : Res R U) (k : Process R U → Res R U) (q : Process R U)
      → r >>= k ≡ done q
      → (x : Process R U) × (r ≡ done x) × (k x ≡ done q)
  bind-done (done x) k q h = (x, refl, h)
  bind-done (panicked v x) k q h = cc
  bind-done (blocked x) k q h = cc
  bind-done out_of_fuel k q h = cc

module _ {R U : Type 0} (receive : ReceiveFunc R U)
    (ms : List (ReceiveFunc R U → ReceiveFunc R U)) where
  pub invoke_msg-env :
      (m : Envelope U) (p q : Process R U)
      → p.middleware ≡ ms
      → is_pill m.msg ≡ false
      → invoke_msg receive p m ≡ done q
      → q.env ≡ env_at (wrapped receive ms) m.msg m.sender p.env
  invoke_msg-env m p q e np h =
      call-env (wrapped receive ms) (record p { message = m.msg; sender = m.sender }) q
        (ap
            (λ l.
              call (apply_middleware receive l) (record p { message = m.msg; sender = m.sender }))
            (sym e)
          ∙ sym (invoke_msg_lem receive p m np)
          ∙ h)

  pub drain-env :
      (l : List (Envelope U)) (p q : Process R U)
      → p.middleware ≡ ms
      → All (Takes (wrapped receive ms)) l
      → drain receive l p ≡ done q
      → q.env ≡ env_after (wrapped receive ms) l p.env
  unfolding drain env_after
  drain-env [] p q e t h = ap (λ (x : Process R U). x.env) (done-injective (sym h))
  drain-env (m ∷ l) p q e t h =
      let (x, first, rest) = bind-done (invoke_msg receive p m) (drain receive l) q h in
      let a : Ran p (invoke_msg receive p m) (handled_of m ∷ []) m.sender =
        Ran-invoke_msg receive ms p m e t.0 in
      let same : x.middleware ≡ ms =
        ap (λ (y : Process R U). y.middleware) (done-injective (sym first ∙ a.is_done))
        ∙ a.same.middleware
        ∙ e in
      drain-env l x q same t.1 rest
      ∙ ap (λ v. env_after (wrapped receive ms) l v) (invoke_msg-env m p x e t.0.0 first)
