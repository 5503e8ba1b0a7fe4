-- ===== src/Actor/Process/Lost.antt =====
-- actor/process.go: a crash while a graceful pill drains the batch.
use distributed_framework.Actor.Pid.{Pid}
use distributed_framework.Actor.Process.{
  Process, Res, panicked, ◌>>=◌, invoke_msg, invoke_loop, recover_invoke, invoke, drain, cleanup,
}
use distributed_framework.Actor.Messages.{Reason, failure, pill, Envelope, ReceiveFunc, is_pill}
use distributed_framework.Actor.Process.Ran.{
  Crashes, Same, Ran, Takes, handled_of, wrapped, Ran-invoke_msg,
}
use distributed_framework.Actor.Process.Batch.{
  Past, loop-Past, invoke_panicked, at_crash, invoke_msg_crash,
}
use distributed_framework.Actor.Process.Poison.{pill_from, drop_prefix}
use distributed_framework.Actor.Process.{start, int32_size}
use distributed_framework.Actor.Messages.{stopped, initialized, started}
use distributed_framework.Actor.Process.Ran.{Same-trans, Handles}
use distributed_framework.Actor.Process.Effect.{done-injective}
use distributed_framework.Actor.Process.Seen.{
  Behaves, Does, crash_count, seen, seen-append, seen-handled, user-plain,
}
use distributed_framework.Actor.Process.Survived.{Survived, All-user}
use distributed_framework.Actor.Process.Survive.{survive_lem, recovered_survives, All-Takes}
use distributed_framework.Common.{
  All-append, ℕ, ◌+◌, ◌≡◌, refl, sym, ap, ap₂, subst, ◌∙◌, true, false, Option, some, List, [], ◌∷◌,
  ◌++◌, map, append_assoc, map-append, arith, length, drop, All, nat_keys, string_keys, drop_past,
  suc, ◌≤◌, ◌<◌,
}

module _ {R U : Type 0} (receive : ReceiveFunc R U)
    (ms : List (ReceiveFunc R U → ReceiveFunc R U)) where
  -- The drain past messages that are handled, up to the one that crashes.
  record Drained (mid : List (Envelope U)) (bad : Envelope U) (rest : List (Envelope U))
      (v : Reason) (p : Process R U) : Type 0 where
    at : Process R U
    panics : drain receive (mid ++ bad ∷ rest) p ≡ panicked v at
    logged : at.log ≡ p.log ++ (map handled_of mid ++ handled_of bad ∷ [])
    same : Same p at

  drain_crash :
      (mid : List (Envelope U)) (bad : Envelope U) (rest : List (Envelope U)) (v : Reason)
      (p : Process R U)
      → p.middleware ≡ ms
      → All (Takes (wrapped receive ms)) mid
      → is_pill bad.msg ≡ false
      → Crashes (wrapped receive ms) bad.msg v
      → Drained mid bad rest v p
  unfolding drain
  drain_crash [] bad rest v p e t np c = record {
    at = at_crash receive ms bad p (c bad.sender p.env).0;
    panics =
        ap (λ (r : Res R U). r >>= drain receive rest) (invoke_msg_crash receive ms bad v p e np c);
    logged = refl;
    same = record {
      pid = refl;
      middleware = refl;
      restarts = refl;
      max_restarts = refl;
      mbuffer = refl;
      inbox_running = refl;
      registered = refl;
      parent = refl;
      fates = refl;
    };
  }
  drain_crash (m ∷ mid) bad rest v p e t np c =
      let a : Ran p (invoke_msg receive p m) (handled_of m ∷ []) m.sender =
        Ran-invoke_msg receive ms p m e t.0 in
      let b : Drained mid bad rest v a.final =
        drain_crash mid bad rest v a.final (a.same.middleware ∙ e) t.1 np c in
      record {
        at = b.at;
        panics = ap (λ (r : Res R U). r >>= drain receive (mid ++ bad ∷ rest)) a.is_done ∙ b.panics;
        logged =
            b.logged
            ∙ ap (λ l. l ++ (map handled_of mid ++ handled_of bad ∷ [])) a.logged
            ∙ append_assoc p.log (handled_of m ∷ []) _;
        same = Same-trans p a.final b.at a.same b.same;
      }

  -- The recovery that a graceful pill leads to when it drains the batch into a crash.
  record Lost (restart : Process R U → Res R U) (n : ℕ) (first kept : List (Envelope U))
      (p : Process R U) (r : Res R U) : Type 0 where
    at : Process R U
    goes : r ≡ recover_invoke receive restart kept (failure n) at
    same : Same p at
    logged : at.log ≡ p.log ++ map handled_of first

  pill-recovers :
      (restart : Process R U → Res R U) (pre mid : List (Envelope U)) (bad : Envelope U)
      (rest : List (Envelope U)) (c n : ℕ) (from : Option Pid) (p : Process R U)
      → p.middleware ≡ ms
      → All (Takes (wrapped receive ms)) pre
      → All (Takes (wrapped receive ms)) mid
      → is_pill bad.msg ≡ false
      → Crashes (wrapped receive ms) bad.msg (failure n)
      → Lost restart n (pre ++ (mid ++ bad ∷ [])) (mid ++ bad ∷ rest) p (
          invoke receive restart
            (pre ++ record { msg = pill (some c) true; sender = from } ∷ (mid ++ bad ∷ rest))
            p)
  unfolding invoke_loop drain invoke_msg is_pill
  pill-recovers restart pre mid bad rest c n from p e tpre tmid np cr = record {
    at = d.at;
    goes =
        invoke_panicked receive ms restart msgs p d.at (failure n) (0 + length pre + 1) (
          past.loop
          ∙ ap (λ (r : Res R U). (r >>= λ t. cleanup receive t (some c), 0 + length pre + 1))
              drained)
        ∙ ap (λ l. recover_invoke receive restart l (failure n) d.at) kept;
    same = Same-trans p past.at d.at same d.same;
    logged =
        d.logged
        ∙ ap₂ (λ l l'. l ++ l') logged (sym (map-append handled_of mid (bad ∷ [])))
        ∙ append_assoc p.log (map handled_of pre) (map handled_of (mid ++ bad ∷ []))
        ∙ ap (λ l. p.log ++ l) (sym (map-append handled_of pre (mid ++ bad ∷ [])));
  }
    where
      behind : List (Envelope U)
      behind = mid ++ bad ∷ rest

      msgs : List (Envelope U)
      msgs = pre ++ pill_from receive ms c true from ∷ behind

      past : Past receive ms msgs pre (pill_from receive ms c true from ∷ behind) 0 0 p
      past = loop-Past receive ms msgs pre (pill_from receive ms c true from ∷ behind) 0 0 p e tpre

      same : Same p past.at
      same = subst (Same p) (sym (done-injective past.ran.is_done)) past.ran.same

      logged : past.at.log ≡ p.log ++ map handled_of pre
      logged = ap (λ (t : Process R U). t.log) (done-injective past.ran.is_done) ∙ past.ran.logged

      d : Drained mid bad rest (failure n) past.at
      d = drain_crash mid bad rest (failure n) past.at (same.middleware ∙ e) tmid np cr

      drained : drain receive (drop (0 + length pre) msgs) past.at ≡ panicked (failure n) d.at
      drained =
          ap (λ l. drain receive l past.at)
            (ap (λ k. drop k msgs) {y = length pre} (omega arith)
              ∙ drop_prefix receive ms pre (pill_from receive ms c true from ∷ behind))
          ∙ d.panics

      kept : drop (0 + length pre + 1) msgs ≡ behind
      kept =
          ap (λ k. drop k msgs) {y = length pre + 1} (omega arith)
          ∙ drop_past pre (pill_from receive ms c true from) behind

module _ {R U : Type 0} (receive : ReceiveFunc R U) (ms : List (ReceiveFunc R U → ReceiveFunc R U))
    (crashes : Envelope U → Option ℕ) where
  -- If the receiver crashes at a message behind a graceful pill while the pill drains the batch,
  -- the pill is lost: the batch ends without a panic, and the process restarts, stays registered
  -- and has a running inbox. The receiver was called with the messages before the pill and those
  -- behind it up to the crash, and then once more with all messages behind the pill, the handled
  -- ones and the crashing one included; one restart was used for the crash in the drain and one
  -- for each crash after it. At each message the receiver always returns or always panics, with a
  -- value that is no InternalError; it handles the system messages, there are restarts and fuel
  -- for all crashes, and no message before that one crashes it.
  pub pill-Lost :
      (produce : R) (f : ℕ) (pre mid : List (Envelope U)) (bad : Envelope U)
      (rest : List (Envelope U)) (c n : ℕ) (from : Option Pid) (p : Process R U)
      → p.middleware ≡ ms
      → Handles receive stopped
      → Handles (wrapped receive ms) initialized
      → Handles (wrapped receive ms) started
      → All (Behaves (wrapped receive ms) crashes) pre
      → crash_count crashes pre ≡ 0
      → All (Behaves (wrapped receive ms) crashes) mid
      → crash_count crashes mid ≡ 0
      → crashes bad ≡ some n
      → All (Behaves (wrapped receive ms) crashes) (bad ∷ rest)
      → crash_count crashes (mid ++ bad ∷ rest) ≤ f
      → p.restarts + suc (crash_count crashes (mid ++ bad ∷ rest)) ≤ p.max_restarts
      → p.max_restarts < int32_size
      → Survived p
          (invoke receive
            (start receive produce (suc f))
            (pre ++ record { msg = pill (some c) true; sender = from } ∷ (mid ++ bad ∷ rest))
            p)
          ((pre ++ (mid ++ bad ∷ [])) ++ (mid ++ bad ∷ rest))
          (suc (crash_count crashes (mid ++ bad ∷ rest)))
  pill-Lost produce f pre mid bad rest c n from p e hstop hi hs bpre zpre bmid zmid cb brest fuel
        left small =
      let kept : List (Envelope U) = mid ++ bad ∷ rest in
      let crash : Crashes (wrapped receive ms) bad.msg (failure n) =
        subst (Does (wrapped receive ms) bad.msg) cb brest.0.1 in
      let w =
        pill-recovers receive ms (start receive produce (suc f)) pre mid bad rest c n from p e
          (All-Takes receive ms crashes pre bpre zpre) (All-Takes receive ms crashes mid bmid zmid)
          (user-plain bad.msg brest.0.0) crash in
      let again : All (Behaves (wrapped receive ms) crashes) kept =
        All-append (Behaves (wrapped receive ms) crashes) mid (bad ∷ rest) bmid brest in
      let first : All (Behaves (wrapped receive ms) crashes) (pre ++ (mid ++ bad ∷ [])) =
        All-append (Behaves (wrapped receive ms) crashes) pre (mid ++ bad ∷ []) bpre
          (All-append (Behaves (wrapped receive ms) crashes) mid (bad ∷ []) bmid (brest.0, tt)) in
      recovered_survives receive ms crashes produce f n (crash_count crashes kept)
        (pre ++ (mid ++ bad ∷ [])) kept p w.at _ w.goes w.same
        (ap (λ l. seen l) w.logged
          ∙ seen-append p.log (map handled_of (pre ++ (mid ++ bad ∷ [])))
          ∙ ap (λ l. seen p.log ++ l)
              (seen-handled (pre ++ (mid ++ bad ∷ []))
                (All-user receive ms crashes (pre ++ (mid ++ bad ∷ [])) first)))
        e hstop hi hs (omega (arith, left)) small
        λ x m r y.
          survive_lem receive ms crashes produce f kept x m hstop hi hs again fuel
            (omega (arith, left, r, y)) (omega (arith, small, y))
