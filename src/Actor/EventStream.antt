-- ===== src/Actor/EventStream.antt =====
-- actor/event_stream.go: the actor that passes events on. `subs` is a map from pointers, which are
-- numbers here; a pointer stands for one PID.
use distributed_framework.Common.Dict.{
  Dict, lookup, insert, delete, values, lookup-delete, lookup-insert,
}
use distributed_framework.Actor.Pid.{Pid}
use distributed_framework.Common.{
  ℕ, ◌≡◌, none, some, List, [], map, arith, if◌then◌else◌, ◌==◌, ==_refl, nat_keys, string_keys,
}

pub record EventStream : Type 0 where
  pub subs : Dict ℕ Pid

unfoldable pub new_event_stream : EventStream
new_event_stream = record { subs = [] }

pub data StreamMessage (M : Type 0) : Type 0 where
  event_sub event_unsub : ℕ → Pid → StreamMessage M
  published : M → StreamMessage M

-- The state, and whom the message is forwarded to.
unfoldable pub receive : {M : Type 0} → EventStream → StreamMessage M → EventStream × List (Pid × M)
receive s (event_sub pointer pid) = (record { subs = insert pointer pid s.subs }, [])
receive s (event_unsub pointer pid) = (record { subs = delete pointer s.subs }, [])
receive s (published m) = (s, map (λ pid. (pid, m)) (values s.subs))

-- After a subscription by one pointer, an unsubscription by another pointer to an equal PID leaves
-- it subscribed, and one by the same pointer ends it.
pub unsubscribe_lem :
    (M : Type 0) (s : EventStream) (p q : ℕ) (pid : Pid)
    → lookup p (receive {M = M} (receive {M = M} s (event_sub p pid)).0 (event_unsub q pid)).0.subs
      ≡ (if q == p then none else some pid)
unfolding receive
unsubscribe_lem M s p q pid =
    ground (arith, lookup-delete q p (insert p pid s.subs), lookup-insert p p pid s.subs, ==_refl p)
