-- ===== src/Actor/Process/Restart.antt =====
-- `Start`: the announcements and the replay of the messages that were kept.
use distributed_framework.Actor.Process.{
  Process, Res, done, ◌>>=◌, invoke, announce, replay, recover_start, start_body, invoke_loop,
}
use distributed_framework.Actor.Messages.{
  initialized, started, Envelope, actor_initialized, actor_started, ReceiveFunc, handled, broadcast,
  inbox_started,
}
use distributed_framework.Actor.Process.Announce.{announcements, produced, announces, announces-env}
use distributed_framework.Actor.Process.Ran.{Handles, Ran, Takes, handled_of, last_sender, wrapped}
use distributed_framework.Actor.Process.Batch.{invoke-env}
use distributed_framework.Actor.Process.Effect.{env_at, env_after}
use distributed_framework.Common.{
  ◌≡◌, refl, ap₂, List, [], ◌∷◌, ◌++◌, map, All, nat_keys, string_keys, sym, ap, ◌∙◌, true,
  append_assoc, subst,
}
use distributed_framework.Actor.Process.Batch.{invoke_lem}

module _ {R U : Type 0} (receive : ReceiveFunc R U)
    (ms : List (ReceiveFunc R U → ReceiveFunc R U)) where
  -- The start of a process whose receiver handles the system messages and those of the buffer.
  pub record Started (produce : R) (p : Process R U) (r : Res R U) : Type 0 where
    pub final : Process R U
    pub is_done : r ≡ done final
    pub logged :
        final.log
        ≡ p.log
          ++ (handled initialized p.sender
              ∷ broadcast (actor_initialized p.pid)
              ∷ handled started p.sender
              ∷ broadcast (actor_started p.pid)
              ∷ (map handled_of p.mbuffer ++ inbox_started ∷ []))
    pub restarts : final.restarts ≡ p.restarts
    pub mbuffer : final.mbuffer ≡ []
    pub inbox_running : final.inbox_running ≡ true
    pub registered : final.registered ≡ p.registered
    pub env_left :
        final.env
        ≡ env_after (wrapped receive ms) p.mbuffer (
            env_at (wrapped receive ms) started p.sender (
              env_at
                (wrapped receive ms)
                initialized
                p.sender
                (record p.env { receiver = produce })))

  -- The buffer handled, and empty.
  record Replayed (p : Process R U) (r : Res R U) : Type 0 where
    final : Process R U
    is_done : r ≡ done final
    logged : final.log ≡ p.log ++ map handled_of p.mbuffer
    restarts : final.restarts ≡ p.restarts
    mbuffer : final.mbuffer ≡ []
    registered : final.registered ≡ p.registered
    env_left : final.env ≡ env_after (wrapped receive ms) p.mbuffer p.env

  -- An empty buffer is replayed as an empty batch would be.
  pub replay-invoke :
      (restart : Process R U → Res R U) (p : Process R U)
      → replay receive restart p
        ≡ (invoke receive restart p.mbuffer p >>= λ q. done (record q { mbuffer = [] }))
  unfolding replay invoke invoke_loop
  replay-invoke restart p = buffered p.mbuffer refl
    where
      replayed : List (Envelope U) → Res R U
      replayed l = elim l [
        | [] ↦ done p
        | _ ∷ _ ↦ invoke receive restart p.mbuffer p >>= λ q. done (record q { mbuffer = [] })
      ]

      buffered :
          (l : List (Envelope U))
          → p.mbuffer ≡ l
          → replay receive restart p
            ≡ (invoke receive restart p.mbuffer p >>= λ q. done (record q { mbuffer = [] }))
      buffered [] h =
          rw (h, replay, invoke, invoke_loop)
            (ap {B = Res R U} (λ b. done (record p { mbuffer = b })) h)
      buffered (m ∷ l) h = ap replayed h

  replay_lem :
      (restart : Process R U → Res R U) (p : Process R U)
      → p.middleware ≡ ms
      → All (Takes (wrapped receive ms)) p.mbuffer
      → Replayed p (replay receive restart p)
  replay_lem restart p e t =
      let a : Ran p (invoke receive restart p.mbuffer p) (map handled_of p.mbuffer)
          (last_sender p.sender p.mbuffer) =
        invoke_lem receive ms restart p.mbuffer p e t in
      record {
        final = record a.final { mbuffer = [] };
        is_done =
            replay-invoke restart p
            ∙ ap (λ (r : Res R U). r >>= λ q. done (record q { mbuffer = [] })) a.is_done;
        logged = a.logged;
        restarts = a.same.restarts;
        mbuffer = refl;
        registered = a.same.registered;
        env_left = invoke-env receive ms restart p.mbuffer p a.final e t a.is_done;
      }

  pub start_lem :
      (restart : Process R U → Res R U) (produce : R) (p : Process R U)
      → p.middleware ≡ ms
      → Handles (wrapped receive ms) initialized
      → Handles (wrapped receive ms) started
      → All (Takes (wrapped receive ms)) p.mbuffer
      → Started produce p (start_body receive restart produce p)
  unfolding start_body
  start_lem restart produce p e hi hs t = record {
    final = record b.final { inbox_running = true; log = b.final.log ++ inbox_started ∷ [] };
    is_done = rw (a.is_done, b.is_done, recover_start);
    logged =
        ap (λ l. l ++ inbox_started ∷ [])
          (b.logged ∙ ap₂ (λ l ms'. l ++ map handled_of ms') a.logged a.same.mbuffer)
        ∙ append_assoc (p.log ++ _) (map handled_of p.mbuffer) (inbox_started ∷ [])
        ∙ append_assoc p.log _ (map handled_of p.mbuffer ++ inbox_started ∷ []);
    restarts = b.restarts ∙ a.same.restarts;
    mbuffer = b.mbuffer;
    inbox_running = refl;
    registered = b.registered ∙ a.same.registered;
    env_left =
        b.env_left
        ∙ ap₂ (λ l v. env_after (wrapped receive ms) l v) a.same.mbuffer
            (announces-env receive ms restart produce p a.final e hi a.is_done);
  }
    where
      a :
          Ran
            (produced produce p)
            (announce receive restart initialized actor_initialized (produced produce p)
              >>= announce receive restart started actor_started)
            (announcements p.pid p.sender)
            p.sender
      a = announces receive ms restart produce p e hi hs

      b : Replayed a.final (replay receive restart a.final)
      b =
          replay_lem restart a.final (a.same.middleware ∙ e)
            (subst (All (Takes (wrapped receive ms))) (sym a.same.mbuffer) t)
