-- ===== src/Actor/Process/Recover.antt =====
-- actor/process.go: the way from a panic in a batch to the new start of the process.
use distributed_framework.Actor.Pid.{Pid}
use distributed_framework.Actor.Process.{
  Process, panicked, call, invoke_loop, int32_size, try_restart, recover_invoke, invoke, start_body,
  start, Res,
}
use distributed_framework.Actor.Messages.{
  failure, stopped, Envelope, actor_restarted, ReceiveFunc, Act, handled, broadcast, sleeps,
  is_pill,
}
use distributed_framework.Actor.Process.Ran.{
  Handles, Crashes, Same, Ran, Ran-call, Takes, handled_of, wrapped,
}
use distributed_framework.Actor.Process.Batch.{
  invoke_panicked, Past, loop-Past, loop_crash, at_crash,
}
use distributed_framework.Actor.Process.Effect.{env_at, env_after, call-env, done-injective}
use distributed_framework.Common.{
  ℕ, suc, ◌+◌, ◌%◌, ◌≡◌, ◌∙◌, ◌≢◌, false, List, [], ◌∷◌, ◌++◌, map, length, drop, All, nat_keys,
  string_keys, nat_eq_of_ne, sym, ap, arith, ap₂, append_assoc, drop_past, refl,
}

-- What a restart says and does before the process starts again.
abbrev pub restart_acts : {U : Type 0} → Pid → ℕ → ℕ → List (Act U)
restart_acts pid n restarts =
    broadcast (actor_restarted pid (failure n) ((restarts + 1) % int32_size)) ∷ sleeps ∷ []

module _ {R U : Type 0} (receive : ReceiveFunc R U) where
  -- The recovery of a panicked process goes on as the start of `again`, which keeps `post`.
  pub record Recovered (produce : R) (f n : ℕ) (post : List (Envelope U)) (q : Process R U)
      : Type 0 where
    pub again : Process R U
    pub goes :
        recover_invoke receive (start receive produce (suc f)) post (failure n) q
        ≡ start_body receive (start receive produce f) produce again
    pub pid : again.pid ≡ q.pid
    pub middleware : again.middleware ≡ q.middleware
    pub sender : again.sender ≡ q.sender
    pub restarts : again.restarts ≡ (q.restarts + 1) % int32_size
    pub max_restarts : again.max_restarts ≡ q.max_restarts
    pub mbuffer : again.mbuffer ≡ post
    pub registered : again.registered ≡ q.registered
    pub env_left : again.env ≡ env_at receive stopped q.sender q.env
    pub logged : again.log ≡ q.log ++ handled stopped q.sender ∷ restart_acts q.pid n q.restarts

  pub recover-Recovered :
      (produce : R) (f n : ℕ) (post : List (Envelope U)) (q : Process R U)
      → q.restarts ≢ q.max_restarts
      → Handles receive stopped
      → Recovered produce f n post q
  unfolding recover_invoke try_restart start
  recover-Recovered produce f n post q left hstop = record {
    again = again;
    goes = rw (stop.is_done, recover_invoke) retried;
    pid = stop.same.pid;
    middleware = stop.same.middleware;
    sender = stop.sender_left;
    restarts = ap (λ t. (t + 1) % int32_size) stop.same.restarts;
    max_restarts = stop.same.max_restarts;
    mbuffer = refl;
    registered = stop.same.registered;
    env_left = call-env receive (record q { message = stopped }) stop.final stop.is_done;
    logged =
        ap₂ (λ l x. l ++ x) stop.logged
          (ap₂ (λ i r. restart_acts i n r) stop.same.pid stop.same.restarts)
        ∙ append_assoc q.log (handled stopped q.sender ∷ []) (restart_acts q.pid n q.restarts);
  }
    where
      stop :
          Ran
            (record q { message = stopped })
            (call receive (record q { message = stopped }))
            (handled stopped q.sender ∷ [])
            q.sender
      stop = Ran-call receive (record q { message = stopped }) hstop

      again : Process R U
      again = record stop.final {
        mbuffer = post;
        restarts = (stop.final.restarts + 1) % int32_size;
        log = stop.final.log ++ restart_acts stop.final.pid n stop.final.restarts;
      }

      retried :
          try_restart receive
            (start receive produce (suc f))
            (failure n)
            (record stop.final { mbuffer = post })
          ≡ start_body receive (start receive produce f) produce again
      retried = rw (
        nat_eq_of_ne stop.final.restarts stop.final.max_restarts
            (λ h. left (sym stop.same.restarts ∙ h ∙ stop.same.max_restarts)),
        try_restart,
      )

module _ {R U : Type 0} (receive : ReceiveFunc R U)
    (ms : List (ReceiveFunc R U → ReceiveFunc R U)) where
  -- The batch `pre ++ bad ∷ post` panics at `bad`, and what it then is goes to the recovery.
  pub record Crashed (restart : Process R U → Res R U) (n : ℕ) (pre : List (Envelope U))
      (bad : Envelope U) (post : List (Envelope U)) (p : Process R U) : Type 0 where
    pub at : Process R U
    pub goes :
        invoke receive restart (pre ++ bad ∷ post) p
        ≡ recover_invoke receive restart post (failure n) at
    pub same : Same p at
    pub sender : at.sender ≡ bad.sender
    pub logged : at.log ≡ (p.log ++ map handled_of pre) ++ handled_of bad ∷ []
    pub env_left :
        at.env
        ≡ env_at (wrapped receive ms) bad.msg bad.sender (env_after (wrapped receive ms) pre p.env)

  pub crash-Crashed :
      (restart : Process R U → Res R U) (n : ℕ) (pre : List (Envelope U)) (bad : Envelope U)
      (post : List (Envelope U)) (p : Process R U)
      → p.middleware ≡ ms
      → All (Takes (wrapped receive ms)) pre
      → is_pill bad.msg ≡ false
      → Crashes (wrapped receive ms) bad.msg (failure n)
      → Crashed restart n pre bad post p
  unfolding invoke env_at
  crash-Crashed restart n pre bad post p e tpre np c = record {
    at = at_bad;
    goes =
        invoke_panicked receive ms restart msgs p at_bad (failure n) _ looped
        ∙ ap (λ l. recover_invoke receive restart l (failure n) at_bad) kept;
    same = record {
      pid = same.pid;
      middleware = same.middleware;
      restarts = same.restarts;
      max_restarts = same.max_restarts;
      mbuffer = same.mbuffer;
      inbox_running = same.inbox_running;
      registered = same.registered;
      parent = same.parent;
      fates = same.fates;
    };
    sender = refl;
    logged = ap (λ l. l ++ handled_of bad ∷ []) past.ran.logged;
    env_left = crashed ∙ ap (λ v. env_at (wrapped receive ms) bad.msg bad.sender v) env_before;
  }
    where
      msgs : List (Envelope U)
      msgs = pre ++ bad ∷ post

      past : Past receive ms msgs pre (bad ∷ post) 0 0 p
      past = loop-Past receive ms msgs pre (bad ∷ post) 0 0 p e tpre

      same : Same p past.ran.final
      same = past.ran.same

      at_bad : Process R U
      at_bad = at_crash receive ms bad past.ran.final (c bad.sender past.ran.final.env).0

      env_before : past.ran.final.env ≡ env_after (wrapped receive ms) pre p.env
      env_before =
          ap (λ (x : Process R U). x.env) (done-injective (sym past.ran.is_done)) ∙ past.env_left

      crashed : at_bad.env ≡ env_at (wrapped receive ms) bad.msg bad.sender past.ran.final.env
      crashed = rw ((c bad.sender past.ran.final.env).1, env_at) refl

      looped :
          invoke_loop receive msgs msgs 0 0 p ≡ (panicked (failure n) at_bad, 0 + length pre + 1)
      looped =
          past.loop
          ∙ ap (λ t. invoke_loop receive msgs (bad ∷ post) (0 + length pre) (0 + length pre) t)
              {y = past.ran.final} (cc (past.ran.is_done))
          ∙ loop_crash receive ms msgs post bad (failure n) (0 + length pre) (0 + length pre)
              past.ran.final (same.middleware ∙ e) np c

      kept : drop (0 + length pre + 1) msgs ≡ post
      kept = ap (λ k. drop k msgs) {y = length pre + 1} (omega arith) ∙ drop_past pre bad post

  -- The batch `pre ++ bad ∷ post` that crashes at `bad` goes on as the start of `again`, which
  -- keeps `post`.
  pub record Restarting (produce : R) (f n : ℕ) (pre : List (Envelope U)) (bad : Envelope U)
      (post : List (Envelope U)) (p : Process R U) : Type 0 where
    pub again : Process R U
    pub goes :
        invoke receive (start receive produce (suc f)) (pre ++ bad ∷ post) p
        ≡ start_body receive (start receive produce f) produce again
    pub pid : again.pid ≡ p.pid
    pub middleware : again.middleware ≡ ms
    pub sender : again.sender ≡ bad.sender
    pub restarts : again.restarts ≡ (p.restarts + 1) % int32_size
    pub max_restarts : again.max_restarts ≡ p.max_restarts
    pub mbuffer : again.mbuffer ≡ post
    pub registered : again.registered ≡ p.registered
    pub env_left :
        again.env
        ≡ env_at receive stopped bad.sender (
            env_at
              (wrapped receive ms)
              bad.msg
              bad.sender
              (env_after (wrapped receive ms) pre p.env))
    pub logged :
        again.log
        ≡ (p.log ++ map handled_of pre)
          ++ handled_of bad ∷ handled stopped bad.sender ∷ restart_acts p.pid n p.restarts

  pub crash-Restarting :
      (produce : R) (f n : ℕ) (pre : List (Envelope U)) (bad : Envelope U)
      (post : List (Envelope U)) (p : Process R U)
      → p.middleware ≡ ms
      → p.restarts ≢ p.max_restarts
      → All (Takes (wrapped receive ms)) pre
      → is_pill bad.msg ≡ false
      → Crashes (wrapped receive ms) bad.msg (failure n)
      → Handles receive stopped
      → Restarting produce f n pre bad post p
  crash-Restarting produce f n pre bad post p e left tpre np c hstop =
      let k : Crashed (start receive produce (suc f)) n pre bad post p =
        crash-Crashed (start receive produce (suc f)) n pre bad post p e tpre np c in
      let w : Recovered receive produce f n post k.at =
        recover-Recovered receive produce f n post k.at
          (λ h. left (sym k.same.restarts ∙ h ∙ k.same.max_restarts)) hstop in
      record {
        again = w.again;
        goes = k.goes ∙ w.goes;
        pid = w.pid ∙ k.same.pid;
        middleware = w.middleware ∙ k.same.middleware ∙ e;
        sender = w.sender ∙ k.sender;
        restarts = w.restarts ∙ ap (λ t. (t + 1) % int32_size) k.same.restarts;
        max_restarts = w.max_restarts ∙ k.same.max_restarts;
        mbuffer = w.mbuffer;
        registered = w.registered ∙ k.same.registered;
        env_left = w.env_left ∙ ap₂ (λ t v. env_at receive stopped t v) k.sender k.env_left;
        logged =
            w.logged
            ∙ ap₂ (λ l x. l ++ x) k.logged
                (ap₂ (λ t x. handled stopped t ∷ x) k.sender
                  (ap₂ (λ i r. restart_acts i n r) k.same.pid k.same.restarts))
            ∙ append_assoc (p.log ++ map handled_of pre) (handled_of bad ∷ []) _;
      }
