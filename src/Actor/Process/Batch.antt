-- ===== src/Actor/Process/Batch.antt =====
-- Batches: what `Invoke` does when the receiver returns, and after a panic.
use distributed_framework.Actor.Process.{
  blocked, out_of_fuel, Process, Res, done, panicked, ◌>>=◌, call, apply_middleware, invoke_msg,
  go_on, invoke_loop, invoke, drain, cleanup, recover_invoke,
}
use distributed_framework.Actor.Messages.{
  Reason, Message, initialized, started, stopped, pill, user, Envelope, ReceiveFunc, is_pill, Env,
}
use distributed_framework.Actor.Process.Ran.{
  Crashes, Ran, Ran-done, Takes, handled_of, last_sender, invoke_msg_lem, wrapped, Ran-invoke_msg,
  Same-trans,
}
use distributed_framework.Actor.Process.Effect.{env_after, invoke_msg-env, done-injective}
use distributed_framework.Common.{
  ℕ, ◌+◌, ◌≡◌, refl, ap₂, false, List, [], ◌∷◌, ◌++◌, map, arith, if◌then◌else◌, length, drop, All,
  nat_keys, string_keys, sym, ap, ◌∙◌, append-nil, append_assoc,
}

module _ {R U : Type 0} (receive : ReceiveFunc R U)
    (ms : List (ReceiveFunc R U → ReceiveFunc R U)) where
  pub loop_step :
      (msgs rest : List (Envelope U)) (m : Envelope U) (n k : ℕ) (p : Process R U)
      → is_pill m.msg ≡ false
      → invoke_loop receive msgs (m ∷ rest) n k p
        ≡ go_on
            (n + 1)
            (invoke_msg receive p m)
            (λ q. invoke_loop receive msgs rest (n + 1) (k + 1) q)
  unfolding invoke_loop is_pill
  loop_step msgs rest m n k p e = by_message m.msg e
    where
      by_message :
          (msg : Message U)
          → is_pill msg ≡ false
          → let t : Res R U × ℕ = elim msg [
            | pill cancel graceful ↦ (
              (if graceful then drain receive (drop k msgs) p else done p) >>= λ q.
                  cleanup receive q cancel,
              n + 1,
            )
            | _ ↦
                go_on
                  (n + 1)
                  (invoke_msg receive p m)
                  λ q. invoke_loop receive msgs rest (n + 1) (k + 1) q
          ] in
            t
            ≡ go_on
                (n + 1)
                (invoke_msg receive p m)
                (λ q. invoke_loop receive msgs rest (n + 1) (k + 1) q)
      by_message (pill c g) h = cc
      by_message initialized h = refl
      by_message started h = refl
      by_message stopped h = refl
      by_message (user u) h = refl

  -- The loop past messages that are handled.
  pub record Past (msgs pre rest : List (Envelope U)) (n k : ℕ) (p : Process R U) : Type 0 where
    pub at : Process R U
    pub ran : Ran p (done at) (map handled_of pre) (last_sender p.sender pre)
    pub loop :
        invoke_loop receive msgs (pre ++ rest) n k p
        ≡ invoke_loop receive msgs rest (n + length pre) (k + length pre) at
    pub env_left : at.env ≡ env_after (wrapped receive ms) pre p.env

  pub loop-Past :
      (msgs pre rest : List (Envelope U)) (n k : ℕ) (p : Process R U)
      → p.middleware ≡ ms
      → All (Takes (wrapped receive ms)) pre
      → Past msgs pre rest n k p
  unfolding env_after
  loop-Past msgs [] rest n k p e t = record {
    at = p;
    ran = Ran-done p;
    loop = ap₂ (λ a b. invoke_loop receive msgs rest a b p) (omega arith) (omega arith);
    env_left = refl;
  }
  loop-Past msgs (m ∷ pre) rest n k p e t =
      let a : Ran p (invoke_msg receive p m) (handled_of m ∷ []) m.sender =
        Ran-invoke_msg receive ms p m e t.0 in
      let b : Past msgs pre rest (n + 1) (k + 1) a.final =
        loop-Past msgs pre rest (n + 1) (k + 1) a.final (a.same.middleware ∙ e) t.1 in
      record {
        at = b.at;
        ran = record {
          final = b.ran.final;
          is_done = b.ran.is_done;
          logged =
              b.ran.logged
              ∙ ap (λ l. l ++ map handled_of pre) a.logged
              ∙ append_assoc p.log (handled_of m ∷ []) (map handled_of pre);
          sender_left = b.ran.sender_left ∙ ap (λ s. last_sender s pre) a.sender_left;
          same = Same-trans p a.final b.ran.final a.same b.ran.same;
        };
        loop =
            loop_step msgs (pre ++ rest) m n k p t.0.0
            ∙ ap
                (λ r.
                  go_on (n + 1) r (λ q. invoke_loop receive msgs (pre ++ rest) (n + 1) (k + 1) q))
                a.is_done
            ∙ b.loop
            ∙ ap₂ (λ i j. invoke_loop receive msgs rest i j b.at) (omega arith) (omega arith);
        env_left =
            b.env_left
            ∙ ap (λ v. env_after (wrapped receive ms) pre v)
                (invoke_msg-env receive ms m p a.final e t.0.0 a.is_done);
      }

  -- A batch of messages other than pills that the receiver handles is handled whole and in order;
  -- the process keeps its PID, middleware, restarts, kept messages and registration.
  pub invoke_lem :
      (restart : Process R U → Res R U) (msgs : List (Envelope U)) (p : Process R U)
      → p.middleware ≡ ms
      → All (Takes (wrapped receive ms)) msgs
      → Ran p (invoke receive restart msgs p) (map handled_of msgs) (last_sender p.sender msgs)
  unfolding invoke invoke_loop
  invoke_lem restart msgs p e t =
      let b : Past msgs msgs [] 0 0 p = loop-Past msgs msgs [] 0 0 p e t in
      let whole : invoke_loop receive msgs msgs 0 0 p ≡ (done b.at, 0 + length msgs) =
        ap (λ l. invoke_loop receive msgs l 0 0 p) (sym (append-nil msgs)) ∙ b.loop in
      record {
        final = b.ran.final;
        is_done = rw (whole, invoke) b.ran.is_done;
        logged = b.ran.logged;
        sender_left = b.ran.sender_left;
        same = b.ran.same;
      }

  -- What such a batch leaves in the context.
  pub invoke-env :
      (restart : Process R U → Res R U) (msgs : List (Envelope U)) (p q : Process R U)
      → p.middleware ≡ ms
      → All (Takes (wrapped receive ms)) msgs
      → invoke receive restart msgs p ≡ done q
      → q.env ≡ env_after (wrapped receive ms) msgs p.env
  unfolding invoke invoke_loop
  invoke-env restart msgs p q e t h =
      let b : Past msgs msgs [] 0 0 p = loop-Past msgs msgs [] 0 0 p e t in
      let whole : invoke_loop receive msgs msgs 0 0 p ≡ (done b.at, 0 + length msgs) =
        ap (λ l. invoke_loop receive msgs l 0 0 p) (sym (append-nil msgs)) ∙ b.loop in
      let same : invoke receive restart msgs p ≡ done b.at = rw (whole, invoke) refl in
      ap (λ (x : Process R U). x.env) (done-injective (sym h ∙ same)) ∙ b.env_left

  abbrev pub at_crash : (bad : Envelope U) (p : Process R U) → Env R → Process R U
  at_crash bad p env = record p {
    message = bad.msg;
    sender = bad.sender;
    env = env;
    log = p.log ++ handled_of bad ∷ [];
  }

  -- A message that crashes the receiver.
  pub invoke_msg_crash :
      (bad : Envelope U) (v : Reason) (p : Process R U)
      → p.middleware ≡ ms
      → is_pill bad.msg ≡ false
      → (c : Crashes (wrapped receive ms) bad.msg v)
      → invoke_msg receive p bad ≡ panicked v (at_crash bad p (c bad.sender p.env).0)
  unfolding call
  invoke_msg_crash bad v p e np c =
      invoke_msg_lem receive p bad np
      ∙ ap (λ l. call (apply_middleware receive l) at_bad) e
      ∙ direct
    where
      at_bad : Process R U
      at_bad = record p { message = bad.msg; sender = bad.sender }

      direct : call (wrapped receive ms) at_bad ≡ panicked v (at_crash bad p (c bad.sender p.env).0)
      direct = rw ((c bad.sender p.env).1, call)

  -- The loop stops at a message that crashes the receiver.
  pub loop_crash :
      (msgs rest : List (Envelope U)) (bad : Envelope U) (v : Reason) (n k : ℕ) (p : Process R U)
      → p.middleware ≡ ms
      → is_pill bad.msg ≡ false
      → (c : Crashes (wrapped receive ms) bad.msg v)
      → invoke_loop receive msgs (bad ∷ rest) n k p ≡ (
        panicked v (record p {
          message = bad.msg;
          sender = bad.sender;
          env = (c bad.sender p.env).0;
          log = p.log ++ handled_of bad ∷ [];
        }),
        n + 1,
      )
  unfolding call
  loop_crash msgs rest bad v n k p e np c =
      loop_step msgs rest bad n k p np
      ∙ ap (λ r. go_on (n + 1) r (λ q. invoke_loop receive msgs rest (n + 1) (k + 1) q))
          (invoke_msg_crash bad v p e np c)

  -- A panic in the loop goes to the deferred function, with the messages that were not taken up.
  pub invoke_panicked :
      (restart : Process R U → Res R U) (msgs : List (Envelope U)) (p q : Process R U) (v : Reason)
      (k : ℕ)
      → invoke_loop receive msgs msgs 0 0 p ≡ (panicked v q, k)
      → invoke receive restart msgs p ≡ recover_invoke receive restart (drop k msgs) v q
  unfolding invoke
  invoke_panicked restart msgs p q v k e =
      ap {B = Res R U}
        (λ (t : Res R U × ℕ). elim t.0 [
          | done q' ↦ done q'
          | panicked v' q' ↦ recover_invoke receive restart (drop t.1 msgs) v' q'
          | blocked q' ↦ blocked q'
          | out_of_fuel ↦ out_of_fuel
        ])
        e

  pub invoke_done :
      (restart : Process R U → Res R U) (msgs : List (Envelope U)) (p q : Process R U) (k : ℕ)
      → invoke_loop receive msgs msgs 0 0 p ≡ (done q, k)
      → invoke receive restart msgs p ≡ done q
  unfolding invoke
  invoke_done restart msgs p q k e =
      ap {B = Res R U}
        (λ (t : Res R U × ℕ). elim t.0 [
          | done q' ↦ done q'
          | panicked v' q' ↦ recover_invoke receive restart (drop t.1 msgs) v' q'
          | blocked q' ↦ blocked q'
          | out_of_fuel ↦ out_of_fuel
        ])
        e
