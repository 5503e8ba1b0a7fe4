-- ===== src/Actor/Process/Crash.antt =====
-- A crash in the middle of a batch: the process restarts and goes on behind the message.
use distributed_framework.Actor.Pid.{Pid}
use distributed_framework.Actor.Process.{Process, Res, done, int32_size, invoke, start_body, start}
use distributed_framework.Actor.Messages.{
  failure, initialized, started, stopped, Envelope, actor_initialized, actor_started,
  actor_restarted, ReceiveFunc, Act, handled, broadcast, sleeps, inbox_started, is_pill,
}
use distributed_framework.Actor.Process.Ran.{Handles, Crashes, Takes, handled_of, wrapped}
use distributed_framework.Actor.Process.Recover.{Restarting, crash-Restarting}
use distributed_framework.Actor.Process.Restart.{Started, start_lem}
use distributed_framework.Actor.Messages.{Env}
use distributed_framework.Actor.Process.Effect.{env_at, env_after}
use distributed_framework.Common.{
  ℕ, suc, ◌+◌, ◌%◌, ◌≡◌, ◌∙◌, ◌≢◌, true, false, List, [], ◌∷◌, ◌++◌, map, All, nat_keys,
  string_keys, sym, ap, subst, ap₂, Option,
}

module _ {R U : Type 0} (receive : ReceiveFunc R U)
    (ms : List (ReceiveFunc R U → ReceiveFunc R U)) where
  -- What a process has done when a batch `pre ++ bad ∷ post` that crashes at `bad` is over: it has
  -- handled `pre` and `bad`, told the crashed receiver that it is stopped, restarted once,
  -- announced itself to the new receiver, and handled `post`. The inbox runs and nothing is kept
  -- back.
  pub record Resumed (produce : R) (pre : List (Envelope U)) (bad : Envelope U)
      (post : List (Envelope U)) (n : ℕ) (p : Process R U) (r : Res R U) : Type 0 where
    pub final : Process R U
    pub is_done : r ≡ done final
    pub restarts : final.restarts ≡ (p.restarts + 1) % int32_size
    pub mbuffer : final.mbuffer ≡ []
    pub inbox_running : final.inbox_running ≡ true
    pub registered : final.registered ≡ p.registered
    pub env_left :
        final.env
        ≡ env_after (wrapped receive ms) post (
            env_at (wrapped receive ms) started bad.sender (
              env_at
                (wrapped receive ms)
                initialized
                bad.sender
                (record (env_at receive stopped bad.sender (
                  env_at
                    (wrapped receive ms)
                    bad.msg
                    bad.sender
                    (env_after (wrapped receive ms) pre p.env))) { receiver = produce })))
    pub logged :
        final.log
        ≡ ((p.log ++ map handled_of pre)
            ++ handled_of bad
              ∷ handled stopped bad.sender
              ∷ broadcast (actor_restarted p.pid (failure n) ((p.restarts + 1) % int32_size))
              ∷ sleeps
              ∷ [])
          ++ (handled initialized bad.sender
              ∷ broadcast (actor_initialized p.pid)
              ∷ handled started bad.sender
              ∷ broadcast (actor_started p.pid)
              ∷ (map handled_of post ++ inbox_started ∷ []))

  -- A batch that crashes once at a message that is no pill, with restarts left, ends with a
  -- running inbox: the messages before and behind the crash are handled once and in order, the
  -- crashing message is not handled again, and Initialized, Started and the messages behind the
  -- crash are handled in a context whose receiver is the one that the producer makes. The receiver
  -- handles the other messages and the system messages, the panic's value is no InternalError, and
  -- there is fuel for the restart.
  pub crash_resumes :
      (produce : R) (f n : ℕ) (pre : List (Envelope U)) (bad : Envelope U)
      (post : List (Envelope U)) (p : Process R U)
      → p.middleware ≡ ms
      → p.restarts ≢ p.max_restarts
      → All (Takes (wrapped receive ms)) pre
      → is_pill bad.msg ≡ false
      → Crashes (wrapped receive ms) bad.msg (failure n)
      → All (Takes (wrapped receive ms)) post
      → Handles receive stopped
      → Handles (wrapped receive ms) initialized
      → Handles (wrapped receive ms) started
      → Resumed produce pre bad post n p
          (invoke receive (start receive produce (suc f)) (pre ++ bad ∷ post) p)
  crash_resumes produce f n pre bad post p e left tpre np c tpost hstop hi hs = record {
    final = s.final;
    is_done = w.goes ∙ s.is_done;
    restarts = s.restarts ∙ w.restarts;
    mbuffer = s.mbuffer;
    inbox_running = s.inbox_running;
    registered = s.registered ∙ w.registered;
    env_left =
        s.env_left
        ∙ ap (λ b. begun b w.again.sender w.again.env) w.mbuffer
        ∙ ap₂ (λ t v. begun post t v) w.sender w.env_left;
    logged =
        s.logged
        ∙ ap (λ b. w.again.log ++ after b w.again.pid w.again.sender) w.mbuffer
        ∙ ap₂ (λ l a. l ++ a) w.logged (ap₂ (after post) w.pid w.sender);
  }
    where
      w : Restarting receive ms produce f n pre bad post p
      w = crash-Restarting receive ms produce f n pre bad post p e left tpre np c hstop

      s :
          Started receive ms produce w.again
            (start_body receive (start receive produce f) produce w.again)
      s =
          start_lem receive ms (start receive produce f) produce w.again w.middleware hi hs
            (subst (All (Takes (wrapped receive ms))) (sym w.mbuffer) tpost)

      begun : List (Envelope U) → Option Pid → Env R → Env R
      begun b t v = env_after (wrapped receive ms) b (
          env_at (wrapped receive ms) started t
            (env_at (wrapped receive ms) initialized t (record v { receiver = produce })))

      after : List (Envelope U) → Pid → Option Pid → List (Act U)
      after b i t =
          handled initialized t
          ∷ broadcast (actor_initialized i)
          ∷ handled started t
          ∷ broadcast (actor_started i)
          ∷ (map handled_of b ++ inbox_started ∷ [])
