-- ===== src/Actor/Context/Laws.antt =====
-- actor/context.go: children, and where a context's messages go.
use Prim.Native.String.{◌++◌ as str_append, len as str_len}
use distributed_framework.Common.Dict.{lookup}
use distributed_framework.Safemap as Safemap
use distributed_framework.Safemap.{SafeMap, set, get, set_lem}
use distributed_framework.Actor.Pid.{Pid, new_pid}
use distributed_framework.Actor.Engine.{Engine, Letter, send, spawn}
use distributed_framework.Actor.Engine.Routing.{Wired, route, send_ends, add_lem}
use distributed_framework.Actor.Context.{
  Context, respond, send_from, forward, spawn_child, child, new_context, str_append,
}
use distributed_framework.Common.{
  ℕ, suc, String, ◌≡◌, refl, Option, none, some, [], if◌then◌else◌, ◌==◌, nat_keys, string_keys,
  ◌∙◌, arith, ==_refl, ltb, ap, nat_eq,
}

-- On an engine whose event stream is registered, Respond goes to the sender of the context's
-- message, and nowhere without one, and Send and Forward go to their target with the context's PID
-- as the sender, each as the routing table says.
pub context_sends :
    {M : Type 0} (n : ℕ) (e : Engine) (es : Pid) (c : Context M) (to : Option Pid) (msg : Letter M)
    → Wired e es
    → (respond (suc (suc n)) e c msg ≡ some (route e es c.sender msg none))
      × (send_from (suc (suc n)) e c to msg ≡ some (route e es to msg (some c.pid)))
      × (forward (suc (suc n)) e c to ≡ some (route e es to c.message (some c.pid)))
unfolding respond send_from forward route
context_sends n e es c to msg w = (
  answer c.sender,
  send_ends n e es to msg (some c.pid) w,
  send_ends n e es to c.message (some c.pid) w,
)
  where
    answer :
        (s : Option Pid)
        → (elim s [ none ↦ some [] | some p ↦ send (suc (suc n)) e (some p) msg none ])
          ≡ some (route e es s msg none)
    answer none = refl
    answer (some p) = send_ends n e es (some p) msg none w

drawn_id :
    (id random : String)
    → (if nat_eq (str_len id) 0 then random else id) ≡ (if ltb 0 (str_len id) then id else random)
drawn_id id random = ground arith

-- On an engine whose event stream is registered, SpawnChild leaves it registered and a process
-- registered under the child's ID, the old one if the ID was taken; the child's PID is made of the
-- context's ID, the name and the given ID, or the drawn one if that is empty, and its parent is
-- the context; the context has the returned PID as the child of that ID, every other child as
-- before, and distinct children's IDs, if it had distinct ones.
pub spawn_child_lem :
    {M : Type 0} (n : ℕ) (e : Engine) (es : Pid) (c : Context M) (name id random j : String)
    (first : Letter M)
    → Wired e es
    → Safemap.IsValid c.children
    → let r = spawn_child (suc n) e c name id random first in
      let kid : Pid = r.2.pid in
      Wired r.0 es
      × (lookup kid.id r.0.registry.entries
          ≡ elim (lookup kid.id e.registry.entries) [ none ↦ some kid | some p ↦ some p ])
      × (kid
          ≡ new_pid e.address (
              str_append
                (str_append c.pid.id (str_append "/" name))
                (str_append "/" (if ltb 0 (str_len id) then id else random))))
      × (r.2.parent ≡ some c.pid)
      × (child r.1 j ≡ (if kid.id == j then some kid else child c j))
      × Safemap.IsValid r.1.children
unfolding spawn_child spawn child new_context
spawn_child_lem {M = M} n e es c name id random j first w v =
    let kid : Pid = (spawn_child (suc n) e c name id random first).2.pid in
    let (w', at, out) = add_lem {M = M} n e es kid kid.id w in
    let (got, kept, size) = set_lem c.children kid.id j kid v in
    (
      w',
      at ∙ ground (arith, ==_refl kid.id),
      ap
          (λ u.
            new_pid e.address
              (str_append (str_append c.pid.id (str_append "/" name)) (str_append "/" u)))
          (drawn_id id random),
      refl,
      got,
      kept,
    )
