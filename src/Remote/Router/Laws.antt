-- ===== src/Remote/Router/Laws.antt =====
-- remote/stream_router.go: one writer per address.
use distributed_framework.Common.Dict.{
  has, has_of_lookup_none, lookup-has, lookup, lookup-insert, lookup-delete,
}
use distributed_framework.Actor.Pid.{Pid, new_pid}
use distributed_framework.Remote.Writer.{StreamDeliver, new_stream_writer}
use distributed_framework.Remote.Router.{
  StreamRouter, RouterRequest, RouterEffect, receive, deliver, started, unreachable, send_to,
  spawn_writer, deliver_stream, handle_terminate_stream,
}
use Prim.Native.String.{◌++◌ as str_append}
use distributed_framework.Common.{
  ◌⊎◌, String, ◌≡◌, some, List, [], ◌∷◌, arith, nat_keys, string_keys, ==_iff, ==_refl, sym, ◌∙◌,
  if◌then◌else◌, ◌==◌, inl, inr, Option-cases,
}

-- The PID that the writer to an address has.
unfoldable pub writer_pid : StreamRouter → String → Pid
unfolding new_pid
writer_pid s address = new_pid s.engine_address (str_append "stream" (str_append "/" address))

-- Each stream that the router knows is the writer to the address that it stands under.
abbrev pub Routed : StreamRouter → Type 0
Routed s =
    (address : String) (pid : Pid)
    → lookup address s.streams ≡ some pid
    → pid ≡ writer_pid s address

-- The messages that an effect sends on, with the writer's PID.
unfoldable pub sends : {M : Type 0} → List (RouterEffect M) → List (Pid × StreamDeliver M)
sends [] = []
sends (spawn_writer w ∷ es) = sends es
sends (send_to p d ∷ es) = (p, d) ∷ sends es

deliver-address :
    {M : Type 0} (s : StreamRouter) (d : StreamDeliver M)
    → (deliver_stream s d).0.engine_address ≡ s.engine_address
unfolding deliver_stream
deliver-address s d = ground arith

deliver-lookup :
    {M : Type 0} (s : StreamRouter) (d : StreamDeliver M) (a : String)
    → Routed s
    → lookup a (deliver_stream s d).0.streams
      ≡ (if d.target.address == a then some (writer_pid s d.target.address) else lookup a s.streams)
unfolding deliver_stream writer_pid new_stream_writer new_pid
deliver-lookup s d a v = elim (Option-cases (lookup d.target.address s.streams)) [
  | inl absent ↦
      ground (arith, lookup-insert d.target.address a (writer_pid s d.target.address) s.streams)
  | inr (w, found) ↦ ground (arith, ==_iff d.target.address a, v d.target.address w found)
]

pub deliver-Routed :
    {M : Type 0} (s : StreamRouter) (d : StreamDeliver M) → Routed s → Routed (deliver_stream s d).0
unfolding writer_pid
deliver-Routed s d v a p h = rw (deliver-address s d) (right (sym (deliver-lookup s d a v) ∙ h))
  where
    right :
        (if d.target.address == a then some (writer_pid s d.target.address) else lookup a s.streams)
          ≡ some p
        → p ≡ writer_pid s a
    right e = ground (arith, ==_iff d.target.address a, v a p)

-- A delivery ends in one message, at the writer to the target's address.
pub sends-deliver :
    {M : Type 0} (s : StreamRouter) (d : StreamDeliver M)
    → Routed s
    → sends (receive s (deliver d)).1 ≡ (writer_pid s d.target.address, d) ∷ []
unfolding receive deliver_stream sends writer_pid new_stream_writer new_pid
sends-deliver s d v = elim (Option-cases (lookup d.target.address s.streams)) [
  | inl absent ↦ ground arith
  | inr (w, found) ↦ ground (arith, v d.target.address w found)
]

-- What the engine sees of the effects, in order: writers that are spawned, with the address that
-- they write to and the router that they report to, and messages that are sent.
unfoldable pub told :
    {M : Type 0} → List (RouterEffect M) → List ((Pid × String × Pid) ⊎ (Pid × StreamDeliver M))
told [] = []
told (spawn_writer w ∷ es) = inl (w.pid, w.write_to_addr, w.router_pid) ∷ told es
told (send_to p d ∷ es) = inr (p, d) ∷ told es

-- A stream router whose streams are right keeps them right under every message. For a message to
-- deliver, it first spawns a writer to the target's address, which reports to the router, if it
-- knows none, and then sends the message, once and to that address's writer, which it knows
-- afterwards.
pub receive-Routed :
    {M : Type 0} (s : StreamRouter) (r : RouterRequest M) (d : StreamDeliver M)
    → Routed s
    → Routed (receive s r).0
      × (told (receive s (deliver d)).1 ≡ (
          if has d.target.address s.streams
          then inr (writer_pid s d.target.address, d) ∷ []
          else inl (writer_pid s d.target.address, d.target.address, s.pid)
            ∷ inr (writer_pid s d.target.address, d)
            ∷ []))
      × (lookup d.target.address (receive s (deliver d)).0.streams
          ≡ some (writer_pid s d.target.address))
unfolding receive handle_terminate_stream deliver_stream told writer_pid new_stream_writer new_pid
receive-Routed {M = M} s r d v = (state r, sent, known)
  where
    state : (r : RouterRequest M) → Routed (receive s r).0
    state (started p) = λ a q h. v a q h
    state (deliver d) = deliver-Routed s d v
    state (unreachable addr) = λ a p h. v a p (ground (arith, lookup-delete addr a s.streams))

    sent : told (deliver_stream s d).1 ≡ (
        if has d.target.address s.streams
        then inr (writer_pid s d.target.address, d) ∷ []
        else inl (writer_pid s d.target.address, d.target.address, s.pid)
          ∷ inr (writer_pid s d.target.address, d)
          ∷ [])
    sent = elim (Option-cases (lookup d.target.address s.streams)) [
      | inl absent ↦ ground (arith, has_of_lookup_none d.target.address s.streams absent)
      | inr (w, found) ↦
          ground (arith, v d.target.address w found, lookup-has d.target.address s.streams w found)
    ]

    known :
        lookup d.target.address (deliver_stream s d).0.streams
        ≡ some (writer_pid s d.target.address)
    known = deliver-lookup s d d.target.address v ∙ ground (arith, ==_refl d.target.address)
