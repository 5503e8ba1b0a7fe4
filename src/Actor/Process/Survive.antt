-- ===== src/Actor/Process/Survive.antt =====
-- actor/process.go: batches with any number of crashes, as long as there are restarts left.
use distributed_framework.Actor.Process.{Process, Res, int32_size, invoke, start_body, start}
use distributed_framework.Actor.Messages.{initialized, started, stopped, Envelope, ReceiveFunc}
use distributed_framework.Actor.Process.Ran.{Handles, Takes, last_sender, wrapped}
use distributed_framework.Actor.Process.Batch.{invoke_lem}
use distributed_framework.Actor.Process.{Res, recover_invoke}
use distributed_framework.Actor.Process.Ran.{Same}
use distributed_framework.Actor.Messages.{failure}
use distributed_framework.Actor.Process.Seen.{seen_nil, seen-append}
use distributed_framework.Actor.Process.Recover.{
  Crashed, crash-Crashed, Recovered, recover-Recovered,
}
use distributed_framework.Common.{
  append-nil, ℕ, zero, suc, ◌+◌, ◌<◌, ◌≤◌, ◌≡◌, ◌∙◌, true, List, [], ◌∷◌, ◌++◌, All, Option,
  nat_keys, string_keys, sym, ap, arith, ap₂, subst, append_assoc, inl, inr, mod-eq_of_lt, ◌%◌,
}
use distributed_framework.Actor.Process.Seen.{seen, seen_in, seen-crash, crash_count, Behaves}
use distributed_framework.Actor.Process.Survived.{
  upon_restart_same, FirstCrash, first_crash, Survived, Ran-Survived, start_survives,
}

module _ {R U : Type 0} (receive : ReceiveFunc R U) (ms : List (ReceiveFunc R U → ReceiveFunc R U))
    (crashes : Envelope U → Option ℕ) where
  -- A process that recovers from a panic and survives what it keeps.
  pub recovered_survives :
      (produce : R) (f n k : ℕ) (head post : List (Envelope U)) (p q : Process R U) (r : Res R U)
      → r ≡ recover_invoke receive (start receive produce (suc f)) post (failure n) q
      → Same p q
      → seen q.log ≡ seen p.log ++ head
      → p.middleware ≡ ms
      → Handles receive stopped
      → Handles (wrapped receive ms) initialized
      → Handles (wrapped receive ms) started
      → p.restarts < p.max_restarts
      → p.max_restarts < int32_size
      → ((x : Process R U)
          → x.middleware ≡ ms
          → x.restarts ≡ p.restarts + 1
          → x.max_restarts ≡ p.max_restarts
          → Survived x (invoke receive (start receive produce f) post x) post k)
      → Survived p r (head ++ post) (suc k)
  unfolding seen seen_in
  recovered_survives produce f n k head post p q r goes same first e hstop hi hs left small again =
      record {
        final = s.final;
        is_done = goes ∙ w.goes ∙ s.is_done;
        handled_once =
            s.handled_once
            ∙ ap₂ (λ a b. a ++ b)
                (ap (λ l. seen l) w.logged ∙ seen-append q.log _ ∙ append-nil (seen q.log) ∙ first)
                w.mbuffer
            ∙ append_assoc (seen p.log) head post;
        restarts = s.restarts ∙ omega (arith, counted_up);
        max_restarts = s.max_restarts ∙ w.max_restarts ∙ same.max_restarts;
        middleware = s.middleware ∙ w.middleware ∙ same.middleware;
        pid = s.pid ∙ w.pid ∙ same.pid;
        registered = s.registered ∙ w.registered ∙ same.registered;
        mbuffer = s.mbuffer ∙ upon_restart_same k [];
        inbox_running = s.inbox_running ∙ upon_restart_same k true;
      }
    where
      w : Recovered receive produce f n post q
      w =
          recover-Recovered receive produce f n post q
            (λ h. omega (arith, h, left, same.restarts, same.max_restarts)) hstop

      counted_up : w.again.restarts ≡ p.restarts + 1
      counted_up =
          w.restarts ∙ ap (λ t. (t + 1) % int32_size) same.restarts ∙ mod-eq_of_lt (omega arith)

      s :
          Survived
            (record w.again { mbuffer = []; inbox_running = true })
            (start_body receive (start receive produce f) produce w.again)
            w.again.mbuffer
            k
      s =
          start_survives receive ms crashes (start receive produce f) produce k w.again
            (w.middleware ∙ same.middleware ∙ e) hi hs
            λ x m c y.
              subst (λ l. Survived x (invoke receive (start receive produce f) l x) l k)
                (sym w.mbuffer)
                (again x m (c ∙ counted_up) (y ∙ w.max_restarts ∙ same.max_restarts))

  crash_survives :
      (produce : R) (f : ℕ) (msgs : List (Envelope U)) (p : Process R U)
      (c : FirstCrash receive ms crashes msgs)
      → p.middleware ≡ ms
      → Handles receive stopped
      → Handles (wrapped receive ms) initialized
      → Handles (wrapped receive ms) started
      → p.restarts < p.max_restarts
      → p.max_restarts < int32_size
      → ((q : Process R U)
          → q.middleware ≡ ms
          → q.restarts ≡ p.restarts + 1
          → q.max_restarts ≡ p.max_restarts
          → Survived q
              (invoke receive (start receive produce f) c.post q)
              c.post
              (crash_count crashes c.post))
      → Survived p
          (invoke receive (start receive produce (suc f)) msgs p)
          msgs
          (crash_count crashes msgs)
  crash_survives produce f msgs p c e hstop hi hs left small again =
      let w : Crashed receive ms (start receive produce (suc f)) c.n c.pre c.bad c.post p =
        crash-Crashed receive ms (start receive produce (suc f)) c.n c.pre c.bad c.post p e c.before
          c.plain c.crash in
      subst (λ k. Survived p (invoke receive (start receive produce (suc f)) msgs p) msgs k)
        (sym c.counted)
        (subst
          (λ l.
            Survived p (invoke receive (start receive produce (suc f)) msgs p) l
              (suc (crash_count crashes c.post)))
          (append_assoc c.pre (c.bad ∷ []) c.post ∙ sym c.is_split)
          (recovered_survives produce f c.n (crash_count crashes c.post) (c.pre ++ c.bad ∷ [])
            c.post p w.at (invoke receive (start receive produce (suc f)) msgs p)
            (ap (λ l. invoke receive (start receive produce (suc f)) l p) c.is_split ∙ w.goes)
            w.same
            (ap (λ l. seen l) w.logged
              ∙ seen-crash p.log [] c.pre c.bad c.users c.bad_user seen_nil
              ∙ append_assoc (seen p.log) c.pre (c.bad ∷ []))
            e hstop hi hs left small again))

  uncrashed :
      (restart : Process R U → Res R U) (msgs : List (Envelope U)) (p : Process R U)
      → p.middleware ≡ ms
      → All (Behaves (wrapped receive ms) crashes) msgs
      → (All (Takes (wrapped receive ms)) msgs) × (crash_count crashes msgs ≡ 0)
      → Survived p (invoke receive restart msgs p) msgs (crash_count crashes msgs)
  uncrashed restart msgs p e t h = rw h.1 (
      Ran-Survived receive ms crashes p _ msgs (last_sender p.sender msgs) t
        (invoke_lem receive ms restart msgs p e h.0))

  -- A batch of users' messages in which any number of messages crash the receiver, with restarts
  -- left for all of them, ends without a panic; the receiver was called with each message of the
  -- batch exactly once and in order, one restart was used for each crash, the process keeps its
  -- PID, middleware and registration, and, if it restarted, keeps no message back and has a
  -- running inbox. At each message the receiver always returns or always panics, with a value that
  -- is no InternalError; it handles the system messages, and there is fuel for all crashes.
  pub survive_lem :
      (produce : R) (f : ℕ) (msgs : List (Envelope U)) (p : Process R U)
      → p.middleware ≡ ms
      → Handles receive stopped
      → Handles (wrapped receive ms) initialized
      → Handles (wrapped receive ms) started
      → All (Behaves (wrapped receive ms) crashes) msgs
      → crash_count crashes msgs ≤ f
      → p.restarts + crash_count crashes msgs ≤ p.max_restarts
      → p.max_restarts < int32_size
      → Survived p (invoke receive (start receive produce f) msgs p) msgs (crash_count crashes msgs)
  survive_lem produce zero msgs p e hstop hi hs t fuel left small =
      elim (first_crash receive ms crashes msgs t) [
        | inl h ↦ uncrashed (start receive produce 0) msgs p e t h
        | inr c ↦ absurd (omega (arith, fuel, c.counted))
      ]
  survive_lem produce (suc f) msgs p e hstop hi hs t fuel left small =
      elim (first_crash receive ms crashes msgs t) [
        | inl h ↦ uncrashed (start receive produce (suc f)) msgs p e t h
        | inr c ↦
            crash_survives produce f msgs p c e hstop hi hs (omega (arith, left, c.counted)) small
              λ q m r x.
                survive_lem produce f c.post q m hstop hi hs c.after
                  (omega (arith, fuel, c.counted)) (omega (arith, left, c.counted, r, x))
                  (omega (arith, small, x))
      ]

  -- Messages of which none crashes are handled.
  pub All-Takes :
      (msgs : List (Envelope U))
      → All (Behaves (wrapped receive ms) crashes) msgs
      → crash_count crashes msgs ≡ 0
      → All (Takes (wrapped receive ms)) msgs
  All-Takes msgs t h = elim (first_crash receive ms crashes msgs t) [
    | inl k ↦ k.0
    | inr c ↦ absurd (omega (arith, h, c.counted))
  ]
