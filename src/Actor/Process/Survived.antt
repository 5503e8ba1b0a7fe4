-- ===== src/Actor/Process/Survived.antt =====
-- actor/process.go: a batch up to its first crash, and the start that follows a crash.
use distributed_framework.Actor.Pid.{Pid}
use distributed_framework.Actor.Process.{
  Process, Res, done, ◌>>=◌, invoke, start_body, recover_start, announce,
}
use distributed_framework.Actor.Messages.{
  failure, initialized, started, Envelope, ReceiveFunc, inbox_started, is_pill, actor_initialized,
  actor_started,
}
use distributed_framework.Actor.Process.Ran.{Handles, Crashes, Ran, Takes, handled_of, wrapped}
use distributed_framework.Actor.Process.Announce.{announcements, produced, announces}
use distributed_framework.Actor.Process.Restart.{replay-invoke}
use distributed_framework.Common.{
  ℕ, zero, suc, ◌+◌, ◌≡◌, ◌∙◌, refl, true, false, List, [], ◌∷◌, ◌++◌, map, All, Option, nat_keys,
  string_keys, ap, arith, subst, append-nil, inl, inr, ◌⊎◌, Option-cases, sym,
}
use distributed_framework.Actor.Process.Seen.{
  is_user, seen, seen-append, seen-handled, crash_count, Does, Behaves, user-plain,
}

-- The value before the first restart, and the one after it.
abbrev pub upon_restart : {A : Type 0} → ℕ → A → A → A
upon_restart zero old new = old
upon_restart (suc k) old new = new

pub upon_restart_same : {A : Type 0} (k : ℕ) (x : A) → upon_restart k x x ≡ x
upon_restart_same zero x = refl
upon_restart_same (suc k) x = refl

module _ {R U : Type 0} where
  -- The run returns; the receiver was called with these users' messages, and `k` restarts were
  -- used.
  pub record Survived (p : Process R U) (r : Res R U) (msgs : List (Envelope U)) (k : ℕ)
      : Type 0 where
    pub final : Process R U
    pub is_done : r ≡ done final
    pub handled_once : seen final.log ≡ seen p.log ++ msgs
    pub restarts : final.restarts ≡ p.restarts + k
    pub max_restarts : final.max_restarts ≡ p.max_restarts
    pub middleware : final.middleware ≡ p.middleware
    pub pid : final.pid ≡ p.pid
    pub registered : final.registered ≡ p.registered
    pub mbuffer : final.mbuffer ≡ upon_restart k p.mbuffer []
    pub inbox_running : final.inbox_running ≡ upon_restart k p.inbox_running true

module _ {R U : Type 0} (receive : ReceiveFunc R U) (ms : List (ReceiveFunc R U → ReceiveFunc R U))
    (crashes : Envelope U → Option ℕ) where
  -- A list up to its first crash and behind it.
  pub record FirstCrash (msgs : List (Envelope U)) : Type 0 where
    pub pre : List (Envelope U)
    pub bad : Envelope U
    pub post : List (Envelope U)
    pub n : ℕ
    pub is_split : msgs ≡ pre ++ bad ∷ post
    pub before : All (Takes (wrapped receive ms)) pre
    pub plain : is_pill bad.msg ≡ false
    pub crash : Crashes (wrapped receive ms) bad.msg (failure n)
    pub after : All (Behaves (wrapped receive ms) crashes) post
    pub users : All (λ m. is_user m.msg ≡ true) pre
    pub bad_user : is_user bad.msg ≡ true
    pub counted : crash_count crashes msgs ≡ suc (crash_count crashes post)

  pub first_crash :
      (msgs : List (Envelope U))
      → All (Behaves (wrapped receive ms) crashes) msgs
      → ((All (Takes (wrapped receive ms)) msgs) × (crash_count crashes msgs ≡ 0)) ⊎ FirstCrash msgs
  unfolding crash_count
  first_crash [] t = inl (tt, refl)
  first_crash (m ∷ msgs) t = elim (Option-cases (crashes m)) [
    | inl e ↦ elim (first_crash msgs t.1) [
      | inl r ↦ inl (
        ((user-plain m.msg t.0.0, subst (Does (wrapped receive ms) m.msg) e t.0.1), r.0),
        rw e (omega (arith, r.1)),
      )
      | inr c ↦ inr record {
        pre = m ∷ c.pre;
        bad = c.bad;
        post = c.post;
        n = c.n;
        is_split = ap (λ l. m ∷ l) c.is_split;
        before =
            ((user-plain m.msg t.0.0, subst (Does (wrapped receive ms) m.msg) e t.0.1), c.before);
        plain = c.plain;
        crash = c.crash;
        after = c.after;
        users = (t.0.0, c.users);
        bad_user = c.bad_user;
        counted = rw e (omega (arith, c.counted));
      }
    ]
    | inr (n, e) ↦ inr record {
      pre = [];
      bad = m;
      post = msgs;
      n = n;
      is_split = refl;
      before = tt;
      plain = user-plain m.msg t.0.0;
      crash = subst (Does (wrapped receive ms) m.msg) e t.0.1;
      after = t.1;
      users = tt;
      bad_user = t.0.0;
      counted = rw e (omega arith);
    }
  ]

  pub All-user :
      (msgs : List (Envelope U))
      → All (Behaves (wrapped receive ms) crashes) msgs
      → All (λ m. is_user m.msg ≡ true) msgs
  All-user [] t = tt
  All-user (m ∷ msgs) (h, t) = (h.0, All-user msgs t)

  pub Ran-Survived :
      (p : Process R U) (r : Res R U) (msgs : List (Envelope U)) (s : Option Pid)
      → All (Behaves (wrapped receive ms) crashes) msgs
      → Ran p r (map handled_of msgs) s
      → Survived p r msgs 0
  Ran-Survived p r msgs s t a = record {
    final = a.final;
    is_done = a.is_done;
    handled_once =
        ap (λ l. seen l) a.logged
        ∙ seen-append p.log (map handled_of msgs)
        ∙ ap (λ l. seen p.log ++ l) (seen-handled msgs (All-user msgs t));
    restarts = a.same.restarts ∙ omega arith;
    max_restarts = a.same.max_restarts;
    middleware = a.same.middleware;
    pid = a.same.pid;
    registered = a.same.registered;
    mbuffer = a.same.mbuffer;
    inbox_running = a.same.inbox_running;
  }

  pub start_survives :
      (restart : Process R U → Res R U) (produce : R) (k : ℕ) (p : Process R U)
      → p.middleware ≡ ms
      → Handles (wrapped receive ms) initialized
      → Handles (wrapped receive ms) started
      → ((q : Process R U)
          → q.middleware ≡ ms
          → q.restarts ≡ p.restarts
          → q.max_restarts ≡ p.max_restarts
          → Survived q (invoke receive restart p.mbuffer q) p.mbuffer k)
      → Survived
          (record p { mbuffer = []; inbox_running = true })
          (start_body receive restart produce p)
          p.mbuffer
          k
  unfolding start_body recover_start seen
  start_survives restart produce k p e hi hs again = record {
    final = record s.final {
      mbuffer = [];
      inbox_running = true;
      log = s.final.log ++ inbox_started ∷ [];
    };
    is_done = rw (a.is_done, replay-invoke receive ms restart a.final, taken, recover_start) refl;
    handled_once =
        seen-append s.final.log (inbox_started ∷ [])
        ∙ append-nil (seen s.final.log)
        ∙ s.handled_once
        ∙ ap (λ l. l ++ p.mbuffer)
            (ap (λ l. seen l) a.logged
              ∙ seen-append p.log (announcements p.pid p.sender)
              ∙ append-nil (seen p.log));
    restarts = s.restarts ∙ ap (λ n. n + k) a.same.restarts;
    max_restarts = s.max_restarts ∙ a.same.max_restarts;
    middleware = s.middleware ∙ a.same.middleware;
    pid = s.pid ∙ a.same.pid;
    registered = s.registered ∙ a.same.registered;
    mbuffer = sym (upon_restart_same k []);
    inbox_running = sym (upon_restart_same k true);
  }
    where
      a :
          Ran
            (produced produce p)
            (announce receive restart initialized actor_initialized (produced produce p)
              >>= announce receive restart started actor_started)
            (announcements p.pid p.sender)
            p.sender
      a = announces receive ms restart produce p e hi hs

      s : Survived a.final (invoke receive restart p.mbuffer a.final) p.mbuffer k
      s = again a.final (a.same.middleware ∙ e) a.same.restarts a.same.max_restarts

      taken : invoke receive restart a.final.mbuffer a.final ≡ done s.final
      taken = ap (λ l. invoke receive restart l a.final) a.same.mbuffer ∙ s.is_done
