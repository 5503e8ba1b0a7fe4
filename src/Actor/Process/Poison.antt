-- ===== src/Actor/Process/Poison.antt =====
-- actor/process.go: the end of a process by a poison pill, graceful or not.
use distributed_framework.Actor.Pid.{Pid}
use distributed_framework.Actor.Process.{
  Process, Res, done, ◌>>=◌, invoke_msg, invoke_loop, invoke, drain, cleanup,
}
use distributed_framework.Actor.Messages.{stopped, pill, Envelope, ReceiveFunc, is_pill}
use distributed_framework.Actor.Process.Ran.{
  Same-trans, Handles, Same, Ran, Ran-done, Ran-bind, Takes, handled_of, last_sender, wrapped,
  Ran-invoke_msg,
}
use distributed_framework.Actor.Process.Batch.{invoke_done, Past, loop-Past}
use distributed_framework.Actor.Process.Release.{NoneHangs}
use distributed_framework.Actor.Process.Effect.{
  env_after, done-injective, drain-env, env_after-append, last_sender-append,
}
use distributed_framework.Actor.Process.Ended.{Ended, Ended-cleanup}
use distributed_framework.Common.{
  map-append, ℕ, ◌≡◌, refl, ap, subst, ◌∙◌, false, List, [], ◌∷◌, ◌++◌, map, All, nat_keys,
  string_keys, Bool, Option, some, if◌then◌else◌, length, drop, ◌+◌, sym, true, append_assoc, arith,
}

module _ {R U : Type 0} (receive : ReceiveFunc R U)
    (ms : List (ReceiveFunc R U → ReceiveFunc R U)) where
  -- The messages of a drain are handled in order; a pill among them is passed over.
  Ran-drain :
      (l : List (Envelope U)) (p : Process R U)
      → p.middleware ≡ ms
      → All (Takes (wrapped receive ms)) l
      → Ran p (drain receive l p) (map handled_of l) (last_sender p.sender l)
  unfolding drain
  Ran-drain [] p e t = Ran-done p
  Ran-drain (m ∷ l) p e t =
      Ran-bind p _ (drain receive l) (handled_of m ∷ []) (map handled_of l) m.sender _
        (Ran-invoke_msg receive ms p m e t.0)
        λ q same s.
          subst (λ s'. Ran q (drain receive l q) (map handled_of l) (last_sender s' l)) s
            (Ran-drain l q (same.middleware ∙ e) t.1)

  pub drop_prefix : (xs ys : List (Envelope U)) → drop (length xs) (xs ++ ys) ≡ ys
  drop_prefix [] ys = refl
  drop_prefix (x ∷ xs) ys = drop_prefix xs ys

  abbrev pub pill_from : ℕ → Bool → Option Pid → Envelope U
  pill_from c g from = record { msg = pill (some c) g; sender = from }

  -- The loop at a pill, once what is drained is known.
  at_pill :
      (restart : Process R U → Res R U) (pre post : List (Envelope U)) (c : ℕ) (g : Bool)
      (from : Option Pid) (p q d : Process R U) (l : List (Envelope U))
      → invoke_loop receive
          (pre ++ pill_from c g from ∷ post)
          (pre ++ pill_from c g from ∷ post)
          0
          0
          p
        ≡ invoke_loop receive
            (pre ++ pill_from c g from ∷ post)
            (pill_from c g from ∷ post)
            (0 + length pre)
            (0 + length pre)
            q
      → (if g
          then drain receive (drop (0 + length pre) (pre ++ pill_from c g from ∷ post)) q
          else done q)
        ≡ done d
      → Ended receive ms p l c (cleanup receive d (some c))
      → Ended receive ms p l c (invoke receive restart (pre ++ pill_from c g from ∷ post) p)
  unfolding invoke_loop
  at_pill restart pre post c g from p q d l past drained en = record {
    final = en.final;
    is_done =
        invoke_done receive ms restart (pre ++ pill_from c g from ∷ post) p en.final
          (0 + length pre + 1)
          (past
            ∙ ap (λ (r : Res R U). (r >>= λ t. cleanup receive t (some c), 0 + length pre + 1))
                drained
            ∙ ap (λ (r : Res R U). (r, 0 + length pre + 1)) en.is_done);
    logged = en.logged;
    inbox_running = en.inbox_running;
    registered = en.registered;
  }

  at_length :
      (pre post : List (Envelope U)) (m : Envelope U)
      → drop (0 + length pre) (pre ++ m ∷ post) ≡ m ∷ post
  at_length pre post m =
      ap (λ k. drop k (pre ++ m ∷ post)) {y = length pre} (omega arith) ∙ drop_prefix pre (m ∷ post)

  -- A drain from a pill on passes over the pill.
  drain_pill :
      (pre post : List (Envelope U)) (c : ℕ) (g : Bool) (from : Option Pid) (q : Process R U)
      → drain receive (drop (0 + length pre) (pre ++ pill_from c g from ∷ post)) q
        ≡ drain receive post q
  unfolding drain invoke_msg is_pill
  drain_pill pre post c g from q =
      ap (λ l. drain receive l q) (at_length pre post (pill_from c g from))

  -- A batch with a pill, whose messages and Stopped the receiver handles, ends the process: a
  -- graceful pill after all messages of the batch are handled, another after those before it; then
  -- the parent, if there is one, forgets the process, each child that the receiver has by then is
  -- poisoned and waited for, the inbox is stopped, the registry entry removed, the receiver and
  -- the event stream told and the caller released, in this order. No child keeps the process
  -- waiting for ever.
  pub poison_lem :
      (restart : Process R U → Res R U) (pre post : List (Envelope U)) (c : ℕ) (graceful : Bool)
      (from : Option Pid) (p : Process R U)
      → p.middleware ≡ ms
      → All (Takes (wrapped receive ms)) pre
      → All (Takes (wrapped receive ms)) post
      → NoneHangs p
      → Handles (wrapped receive ms) stopped
      → Ended receive ms p (pre ++ (if graceful then post else [])) c (
          invoke receive restart
            (pre ++ record { msg = pill (some c) graceful; sender = from } ∷ post)
            p)
  unfolding env_after
  poison_lem restart pre post c graceful from p e tpre tpost waits h =
      let d : Ran past.at (drained graceful) (map handled_of (tail graceful))
          (last_sender past.at.sender (tail graceful)) =
        rest graceful in
      at_pill restart pre post c graceful from p past.at d.final (pre ++ tail graceful) past.loop
        d.is_done
        (Ended-cleanup receive ms p d.final (pre ++ tail graceful) c
          (Same-trans p past.at d.final same d.same)
          (d.logged
            ∙ ap (λ l. l ++ map handled_of (tail graceful)) logged
            ∙ append_assoc p.log (map handled_of pre) (map handled_of (tail graceful))
            ∙ ap (λ l. p.log ++ l) (sym (map-append handled_of pre (tail graceful))))
          (d.sender_left
            ∙ ap (λ t. last_sender t (tail graceful)) sent
            ∙ sym (last_sender-append p.sender pre (tail graceful)))
          (rest-env graceful d.final d.is_done
            ∙ ap (λ v. env_after (wrapped receive ms) (tail graceful) v) past.env_left
            ∙ sym (env_after-append (wrapped receive ms) pre (tail graceful) p.env))
          e waits h)
    where
      past :
          Past receive ms
            (pre ++ pill_from c graceful from ∷ post)
            pre
            (pill_from c graceful from ∷ post)
            0
            0
            p
      past =
          loop-Past receive ms (pre ++ pill_from c graceful from ∷ post) pre
            (pill_from c graceful from ∷ post) 0 0 p e tpre

      same : Same p past.at
      same = subst (Same p) (sym (done-injective past.ran.is_done)) past.ran.same

      logged : past.at.log ≡ p.log ++ map handled_of pre
      logged = ap (λ (t : Process R U). t.log) (done-injective past.ran.is_done) ∙ past.ran.logged

      sent : past.at.sender ≡ last_sender p.sender pre
      sent =
          ap (λ (t : Process R U). t.sender) (done-injective past.ran.is_done)
          ∙ past.ran.sender_left

      tail : Bool → List (Envelope U)
      tail g = if g then post else []

      drained : Bool → Res R U
      drained g =
          if g
          then drain receive (drop (0 + length pre) (pre ++ pill_from c graceful from ∷ post))
              past.at
          else done past.at

      rest :
          (g : Bool)
          → Ran past.at (drained g) (map handled_of (tail g)) (last_sender past.at.sender (tail g))
      rest true =
          subst (λ r. Ran past.at r (map handled_of post) (last_sender past.at.sender post))
            (sym (drain_pill pre post c graceful from past.at))
            (Ran-drain post past.at (same.middleware ∙ e) tpost)
      rest false = Ran-done past.at

      rest-env :
          (g : Bool) (d : Process R U)
          → drained g ≡ done d
          → d.env ≡ env_after (wrapped receive ms) (tail g) past.at.env
      rest-env true d k =
          drain-env receive ms post past.at d (same.middleware ∙ e) tpost
            (sym (drain_pill pre post c graceful from past.at) ∙ k)
      rest-env false d k = ap (λ (t : Process R U). t.env) (sym (done-injective k))
