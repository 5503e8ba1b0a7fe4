-- ===== src/Actor/Process/Ran.antt =====
-- Runs of a process that return: what they log, and the configuration that they leave alone.
use distributed_framework.Actor.Pid.{Pid}
use distributed_framework.Actor.Process.{
  Process, Res, done, ◌>>=◌, call, apply_middleware, invoke_msg, act,
}
use distributed_framework.Actor.Messages.{
  Reason, Message, Envelope, Env, returns, panics, ReceiveFunc, Act, handled, is_pill,
}
use distributed_framework.Common.{
  ◌≡◌, refl, sym, ap, ◌∙◌, false, Option, List, [], ◌∷◌, ◌++◌, append-nil, append_assoc, nat_keys,
  string_keys,
}

module _ {R U : Type 0} where
  -- The receive function returns at this message, whoever sends it and whatever the state.
  abbrev pub Handles : ReceiveFunc R U → Message U → Type 0
  Handles f m = (s : Option Pid) (e : Env R) → (e' : Env R) × (f m s e ≡ returns e')

  -- It panics at this message with a value of its own.
  abbrev pub Crashes : ReceiveFunc R U → Message U → Reason → Type 0
  Crashes f m v = (s : Option Pid) (e : Env R) → (e' : Env R) × (f m s e ≡ panics v e')

  pub record Same (p q : Process R U) : Type 0 where
    pub pid : q.pid ≡ p.pid
    pub middleware : q.middleware ≡ p.middleware
    pub restarts : q.restarts ≡ p.restarts
    pub max_restarts : q.max_restarts ≡ p.max_restarts
    pub mbuffer : q.mbuffer ≡ p.mbuffer
    pub inbox_running : q.inbox_running ≡ p.inbox_running
    pub registered : q.registered ≡ p.registered
    pub parent : q.parent ≡ p.parent
    pub fates : q.fates ≡ p.fates

  pub Same-refl : (p : Process R U) → Same p p
  Same-refl p = record {
    pid = refl;
    middleware = refl;
    restarts = refl;
    max_restarts = refl;
    mbuffer = refl;
    inbox_running = refl;
    registered = refl;
    parent = refl;
    fates = refl;
  }

  pub Same-trans : (p q r : Process R U) → Same p q → Same q r → Same p r
  Same-trans p q r a b = record {
    pid = b.pid ∙ a.pid;
    middleware = b.middleware ∙ a.middleware;
    restarts = b.restarts ∙ a.restarts;
    max_restarts = b.max_restarts ∙ a.max_restarts;
    mbuffer = b.mbuffer ∙ a.mbuffer;
    inbox_running = b.inbox_running ∙ a.inbox_running;
    registered = b.registered ∙ a.registered;
    parent = b.parent ∙ a.parent;
    fates = b.fates ∙ a.fates;
  }

  -- The run returns, logs `l`, and leaves the sender `s` in the context.
  pub record Ran (p : Process R U) (r : Res R U) (l : List (Act U)) (s : Option Pid) : Type 0 where
    pub final : Process R U
    pub is_done : r ≡ done final
    pub logged : final.log ≡ p.log ++ l
    pub sender_left : final.sender ≡ s
    pub same : Same p final

  -- A run from another message and sender.
  pub Ran-message :
      (p : Process R U) (m : Message U) (t s : Option Pid) (r : Res R U) (l : List (Act U))
      → Ran (record p { message = m; sender = t }) r l s
      → Ran p r l s
  Ran-message p m t s r l a = record {
    final = a.final;
    is_done = a.is_done;
    logged = a.logged;
    sender_left = a.sender_left;
    same = record {
      pid = a.same.pid;
      middleware = a.same.middleware;
      restarts = a.same.restarts;
      max_restarts = a.same.max_restarts;
      mbuffer = a.same.mbuffer;
      inbox_running = a.same.inbox_running;
      registered = a.same.registered;
      parent = a.same.parent;
      fates = a.same.fates;
    };
  }

  -- A run that does one thing more, and may change what a receiver may change.
  pub Ran-step :
      (p : Process R U) (a : Act U) (e : Env R)
      → Ran p (done (record p { env = e; log = p.log ++ a ∷ [] })) (a ∷ []) p.sender
  Ran-step p a e = record {
    final = record p { env = e; log = p.log ++ a ∷ [] };
    is_done = refl;
    logged = refl;
    sender_left = refl;
    same = record {
      pid = refl;
      middleware = refl;
      restarts = refl;
      max_restarts = refl;
      mbuffer = refl;
      inbox_running = refl;
      registered = refl;
      parent = refl;
      fates = refl;
    };
  }

  pub Ran-act : (p : Process R U) (a : Act U) → Ran p (done (act p a)) (a ∷ []) p.sender
  Ran-act p a = Ran-step p a p.env

  pub Ran-done : (p : Process R U) → Ran p (done p) [] p.sender
  Ran-done p = record {
    final = p;
    is_done = refl;
    logged = sym (append-nil p.log);
    sender_left = refl;
    same = Same-refl p;
  }

  pub Ran-call :
      (f : ReceiveFunc R U) (p : Process R U)
      → Handles f p.message
      → Ran p (call f p) (handled p.message p.sender ∷ []) p.sender
  unfolding call
  Ran-call f p h = record {
    final = record p { env = (h p.sender p.env).0; log = p.log ++ handled p.message p.sender ∷ [] };
    is_done = rw ((h p.sender p.env).1, call);
    logged = refl;
    sender_left = refl;
    same = record {
      pid = refl;
      middleware = refl;
      restarts = refl;
      max_restarts = refl;
      mbuffer = refl;
      inbox_running = refl;
      registered = refl;
      parent = refl;
      fates = refl;
    };
  }

  pub Ran-bind :
      (p : Process R U) (r : Res R U) (k : Process R U → Res R U) (l l' : List (Act U))
      (s s' : Option Pid)
      → Ran p r l s
      → ((q : Process R U) → Same p q → q.sender ≡ s → Ran q (k q) l' s')
      → Ran p (r >>= k) (l ++ l') s'
  Ran-bind p r k l l' s s' a f =
      let b : Ran a.final (k a.final) l' s' = f a.final a.same a.sender_left in
      record {
        final = b.final;
        is_done = rw a.is_done b.is_done;
        logged = b.logged ∙ ap (λ t. t ++ l') a.logged ∙ append_assoc p.log l l';
        sender_left = b.sender_left;
        same = Same-trans p a.final b.final a.same b.same;
      }

-- The message of an envelope, at a receive function that handles it.
abbrev pub Takes : {R U : Type 0} → ReceiveFunc R U → Envelope U → Type 0
Takes f m = (is_pill m.msg ≡ false) × Handles f m.msg

abbrev pub handled_of : {U : Type 0} → Envelope U → Act U
handled_of m = handled m.msg m.sender

abbrev pub last_sender : {U : Type 0} → Option Pid → List (Envelope U) → Option Pid
last_sender s [] = s
last_sender s (m ∷ ms) = last_sender m.sender ms

-- With or without middleware, a message that is no pill is a call of the wrapped receive function.
pub invoke_msg_lem :
    {R U : Type 0} (receive : ReceiveFunc R U) (p : Process R U) (m : Envelope U)
    → is_pill m.msg ≡ false
    → invoke_msg receive p m
      ≡ call
          (apply_middleware receive p.middleware)
          (record p { message = m.msg; sender = m.sender })
unfolding invoke_msg apply_middleware
invoke_msg_lem {R} {U} receive p m e = rw (e, invoke_msg) (by_middleware p.middleware refl)
  where
    q : Process R U
    q = record p { message = m.msg; sender = m.sender }

    by_middleware :
        (l : List (ReceiveFunc R U → ReceiveFunc R U))
        → p.middleware ≡ l
        → let t : Res R U = elim l [
          | [] ↦ call receive q
          | _ ∷ _ ↦ call (apply_middleware receive p.middleware) q
        ] in
          t ≡ call (apply_middleware receive p.middleware) q
    by_middleware [] h = ap (λ ms. call (apply_middleware receive ms) q) (sym h)
    by_middleware (_ ∷ _) h = refl

module _ {R U : Type 0} (receive : ReceiveFunc R U)
    (ms : List (ReceiveFunc R U → ReceiveFunc R U)) where
  abbrev pub wrapped : ReceiveFunc R U
  wrapped = apply_middleware receive ms

  pub Ran-call-wrapped :
      (p : Process R U)
      → p.middleware ≡ ms
      → Handles wrapped p.message
      → Ran p
          (call (apply_middleware receive p.middleware) p)
          (handled p.message p.sender ∷ [])
          p.sender
  Ran-call-wrapped p e h = Ran-call (apply_middleware receive p.middleware) p (rw e h)

  pub Ran-invoke_msg :
      (p : Process R U) (m : Envelope U)
      → p.middleware ≡ ms
      → Takes wrapped m
      → Ran p (invoke_msg receive p m) (handled_of m ∷ []) m.sender
  Ran-invoke_msg p m e t = rw (invoke_msg_lem receive p m t.0) (
      Ran-message p m.msg m.sender m.sender _ (handled_of m ∷ [])
        (Ran-call-wrapped (record p { message = m.msg; sender = m.sender }) e t.1))
