-- ===== src/Actor/Process/Delivery.antt =====
-- actor/inbox.go and actor/process.go composed: the batches that the inbox hands on, as the process
-- invokes them, with the crashes that restart it.
mod Tests
use distributed_framework.Actor.Inbox.{Inbox, Reach, active}
use distributed_framework.Actor.Inbox as Inbox
use distributed_framework.Actor.Inbox.Laws.{none_left_behind}
use distributed_framework.Actor.Process.{Process, Res, done, ◌>>=◌, invoke, start, int32_size}
use distributed_framework.Actor.Messages.{Envelope, ReceiveFunc, initialized, started, stopped}
use distributed_framework.Actor.Process.Ran.{Handles, wrapped}
use distributed_framework.Actor.Process.Seen.{Behaves, crash_count, seen}
use distributed_framework.Actor.Process.Survived.{Survived, upon_restart}
use distributed_framework.Actor.Process.Survive.{survive_lem}
use distributed_framework.Common.{
  All-split, ◌≡◌, refl, sym, subst, ◌∙◌, ◌≢◌, Option, List, [], ◌∷◌, ◌++◌, All, nat_keys,
  string_keys, ℕ, zero, suc, ◌+◌, ◌≤◌, ◌<◌, ap, true, append-nil, append_assoc, arith,
}

-- The messages of all batches.
abbrev pub joined : {U : Type 0} → List (List (Envelope U)) → List (Envelope U)
joined [] = []
joined (b ∷ bs) = b ++ joined bs

crash_count-append :
    {U : Type 0} (crashes : Envelope U → Option ℕ) (xs ys : List (Envelope U))
    → crash_count crashes (xs ++ ys) ≡ crash_count crashes xs + crash_count crashes ys
unfolding crash_count
crash_count-append crashes [] ys = omega arith
crash_count-append crashes (x ∷ xs) ys = omega (arith, crash_count-append crashes xs ys)

upon_restart-add :
    {A : Type 0} (k n : ℕ) (old new : A)
    → upon_restart n (upon_restart k old new) new ≡ upon_restart (k + n) old new
upon_restart-add k zero old new = ap (λ i. upon_restart i old new) (omega arith)
upon_restart-add k (suc n) old new =
    ap (λ i. upon_restart i old new) {x = suc (k + n)} (omega arith)

module _ {R U : Type 0} where
  Survived-done : (p : Process R U) → Survived p (done p) [] 0
  Survived-done p = record {
    final = p;
    is_done = refl;
    handled_once = sym (append-nil (seen p.log));
    restarts = omega arith;
    max_restarts = refl;
    middleware = refl;
    pid = refl;
    registered = refl;
    mbuffer = refl;
    inbox_running = refl;
  }

  Survived-bind :
      (p : Process R U) (r : Res R U) (g : Process R U → Res R U) (xs ys : List (Envelope U))
      (k n : ℕ)
      → (a : Survived p r xs k) → Survived a.final (g a.final) ys n
      → Survived p (r >>= g) (xs ++ ys) (k + n)
  Survived-bind p r g xs ys k n a b = record {
    final = b.final;
    is_done = rw a.is_done b.is_done;
    handled_once =
        b.handled_once ∙ ap (λ l. l ++ ys) a.handled_once ∙ append_assoc (seen p.log) xs ys;
    restarts = omega (arith, a.restarts, b.restarts);
    max_restarts = b.max_restarts ∙ a.max_restarts;
    middleware = b.middleware ∙ a.middleware;
    pid = b.pid ∙ a.pid;
    registered = b.registered ∙ a.registered;
    mbuffer =
        b.mbuffer ∙ ap (λ l. upon_restart n l []) a.mbuffer ∙ upon_restart-add k n p.mbuffer [];
    inbox_running =
        b.inbox_running
        ∙ ap (λ l. upon_restart n l true) a.inbox_running
        ∙ upon_restart-add k n p.inbox_running true;
  }

module _ {R U : Type 0} (receive : ReceiveFunc R U) (produce : R) (f : ℕ) where
  -- `Invoke` of each batch, one after the other.
  unfoldable pub invoke_all : List (List (Envelope U)) → Process R U → Res R U
  invoke_all [] p = done p
  invoke_all (b ∷ bs) p = invoke receive (start receive produce f) b p >>= invoke_all bs

module _ {R U : Type 0} (receive : ReceiveFunc R U) (ms : List (ReceiveFunc R U → ReceiveFunc R U))
    (crashes : Envelope U → Option ℕ) (produce : R) (f : ℕ) where
  invoke_all_lem :
      (batches : List (List (Envelope U))) (p : Process R U)
      → p.middleware ≡ ms
      → Handles receive stopped
      → Handles (wrapped receive ms) initialized
      → Handles (wrapped receive ms) started
      → All (Behaves (wrapped receive ms) crashes) (joined batches)
      → crash_count crashes (joined batches) ≤ f
      → p.restarts + crash_count crashes (joined batches) ≤ p.max_restarts
      → p.max_restarts < int32_size
      → Survived p
          (invoke_all receive produce f batches p)
          (joined batches)
          (crash_count crashes (joined batches))
  unfolding invoke_all crash_count
  invoke_all_lem [] p e hstop hi hs t fuel left small = Survived-done p
  invoke_all_lem (b ∷ bs) p e hstop hi hs t fuel left small =
      let (first, rest) = All-split (Behaves (wrapped receive ms) crashes) b (joined bs) t in
      let sum : crash_count crashes (b ++ joined bs)
          ≡ crash_count crashes b + crash_count crashes (joined bs) =
        crash_count-append crashes b (joined bs) in
      let a : Survived p (invoke receive (start receive produce f) b p) b (crash_count crashes b) =
        survive_lem receive ms crashes produce f b p e hstop hi hs first (omega (arith, fuel, sum))
          (omega (arith, left, sum)) small in
      subst (λ k. Survived p (invoke_all receive produce f (b ∷ bs) p) (b ++ joined bs) k) (sym sum)
        (Survived-bind p (invoke receive (start receive produce f) b p)
          (λ q. invoke_all receive produce f bs q) b (joined bs) (crash_count crashes b)
          (crash_count crashes (joined bs)) a
          (invoke_all_lem bs a.final (a.middleware ∙ e) hstop hi hs rest (omega (arith, fuel, sum))
            (omega (arith, left, sum, a.restarts, a.max_restarts))
            (omega (arith, small, a.max_restarts))))

  -- When an inbox that was started and is not stopped again has come to rest, then, however its
  -- goroutines interleaved, whatever batches it handed on and wherever the receiver crashed, the
  -- process that invokes those batches has given its receiver exactly the users' messages sent,
  -- each once and in order; it used one restart for each crash, keeps its PID, middleware and
  -- registration, and, if it restarted, keeps no message back and has a running inbox. At each
  -- message the receiver always returns or always panics, with a value that is no InternalError;
  -- it handles the system messages; there are restarts and fuel for all crashes.
  pub delivery_lem :
      (s : Inbox (Envelope U)) (batches : List (List (Envelope U))) (p : Process R U)
      → Reach s
      → active s ≡ 0
      → s.status ≢ Inbox.stopped
      → joined batches ≡ s.handled
      → p.middleware ≡ ms
      → Handles receive stopped
      → Handles (wrapped receive ms) initialized
      → Handles (wrapped receive ms) started
      → All (Behaves (wrapped receive ms) crashes) s.sent
      → crash_count crashes s.sent ≤ f
      → p.restarts + crash_count crashes s.sent ≤ p.max_restarts
      → p.max_restarts < int32_size
      → Survived p (invoke_all receive produce f batches p) s.sent (crash_count crashes s.sent)
  delivery_lem s batches p r quiet up b e hstop hi hs t fuel left small =
      let all : joined batches ≡ s.sent = b ∙ none_left_behind s r quiet up in
      subst (λ l. Survived p (invoke_all receive produce f batches p) l (crash_count crashes l)) all
        (invoke_all_lem batches p e hstop hi hs
          (subst (All (Behaves (wrapped receive ms) crashes)) (sym all) t)
          (subst (λ l. crash_count crashes l ≤ f) (sym all) fuel)
          (subst (λ l. p.restarts + crash_count crashes l ≤ p.max_restarts) (sym all) left) small)
