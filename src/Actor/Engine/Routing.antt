-- ===== src/Actor/Engine/Routing.antt =====
-- actor/engine.go and actor/registry.go: where messages go, and that sending ends.
use distributed_framework.Common.Dict.{
  lookup, has, insert, lookup-insert, lookup-delete, has_of_lookup_none, lookup-has, has-lookup,
}
use distributed_framework.Actor.Pid.{Pid, new_pid}
use distributed_framework.Actor.Engine.{
  Engine, Letter, Outside, event, dead_letter, remote_missing, duplicate_id, process_send,
  process_start, remote_send, get, remove, is_local_message, local_or, send, broadcast_event, add,
  request, result,
}
use Prim.Native.String.{◌++◌ as str_append}
use distributed_framework.Common.{
  ℕ, zero, suc, String, ◌≡◌, refl, Option, none, some, List, [], ◌∷◌, arith, if◌then◌else◌, ◌==◌,
  ==_iff, nat_keys, string_keys, ap, ◌∙◌, inl, inr, Bool-cases, subst, false, ==_refl,
}

-- The engine's event stream is registered, on the engine's own address.
pub record Wired (e : Engine) (es : Pid) : Type 0 where
  pub stream : e.event_stream ≡ some es
  pub here : e.address ≡ es.address
  pub registered : lookup es.id e.registry.entries ≡ some es

-- Where a message goes: nowhere for nil, to the processer or the event stream on the engine's own
-- address, and else to the remote or the event stream.
unfoldable pub route :
    {M : Type 0} → Engine → Pid → Option Pid → Letter M → Option Pid → List (Outside M)
route e es none msg sender = []
route e es (some pid) msg sender =
    if e.address == pid.address
    then elim (lookup pid.id e.registry.entries) [
      | none ↦ process_send es (event (dead_letter (some pid) msg sender)) none ∷ []
      | some proc ↦ process_send proc msg sender ∷ []
    ]
    else elim e.remote [
      | none ↦ process_send es (event (remote_missing pid msg sender)) none ∷ []
      | some r ↦ remote_send pid msg sender ∷ []
    ]

added-Wired :
    (e : Engine) (es pid : Pid)
    → Wired e es
    → has pid.id e.registry.entries ≡ false
    → Wired (record e { registry = record { entries = insert pid.id pid e.registry.entries } }) es
added-Wired e es pid w new = record {
  stream = w.stream;
  here = w.here;
  registered =
      lookup-insert pid.id es.id pid e.registry.entries
      ∙ ground (
        arith,
        ==_iff pid.id es.id,
        w.registered,
        lookup-has es.id e.registry.entries es w.registered,
      );
}

add-Wired :
    (M : Type 0) (n : ℕ) (e : Engine) (es pid : Pid) → Wired e es → Wired (add {M = M} n e pid).0 es
unfolding add
add-Wired M n e es pid w = elim (Bool-cases (has pid.id e.registry.entries)) [
  | inl there ↦ subst (λ e'. Wired e' es) (ground arith) w
  | inr new ↦ subst (λ e'. Wired e' es) (ground arith) (added-Wired e es pid w new)
]

add-lookup :
    (M : Type 0) (n : ℕ) (e : Engine) (pid : Pid) (id : String)
    → lookup id (add {M = M} n e pid).0.registry.entries ≡ (
        if pid.id == id
        then elim (lookup id e.registry.entries) [ none ↦ some pid | some p ↦ some p ]
        else lookup id e.registry.entries)
unfolding add
add-lookup M n e pid id = ground (
  arith,
  ==_iff pid.id id,
  has_of_lookup_none id e.registry.entries,
  has-lookup id e.registry.entries,
  lookup-insert pid.id id pid e.registry.entries,
)

module _ {M : Type 0} where
  -- A message to a registered local PID goes to it; one to an unregistered one is a dead letter.
  send_here :
      (n : ℕ) (e : Engine) (pid proc : Pid) (msg : Letter M) (sender : Option Pid)
      → e.address ≡ pid.address
      → lookup pid.id e.registry.entries ≡ some proc
      → send (suc n) e (some pid) msg sender ≡ some (process_send proc msg sender ∷ [])
  unfolding send local_or is_local_message get
  send_here n e pid proc msg sender h l = ground (arith, ==_iff e.address pid.address)

  send_dead :
      (n : ℕ) (e : Engine) (pid : Pid) (msg : Letter M) (sender : Option Pid)
      → e.address ≡ pid.address
      → lookup pid.id e.registry.entries ≡ none
      → send (suc n) e (some pid) msg sender
        ≡ send n e e.event_stream (event (dead_letter (some pid) msg sender)) none
  unfolding send local_or is_local_message get
  send_dead n e pid msg sender h l = ground (arith, ==_iff e.address pid.address)

  -- An event reaches the event stream in one call.
  pub broadcast_lem :
      (n : ℕ) (e : Engine) (es : Pid) (msg : Letter M)
      → Wired e es
      → broadcast_event (suc n) e msg ≡ some (process_send es msg none ∷ [])
  unfolding broadcast_event
  broadcast_lem n e es msg w =
      ap (λ s. send (suc n) e s msg none) w.stream
      ∙ send_here n e es es msg none w.here w.registered

  -- On an engine whose event stream is registered, sending a message ends within two nested calls
  -- and does exactly what the routing table says, for a nil, local, dead or remote target.
  pub send_ends :
      (n : ℕ) (e : Engine) (es : Pid) (pid : Option Pid) (msg : Letter M) (sender : Option Pid)
      → Wired e es
      → send (suc (suc n)) e pid msg sender ≡ some (route e es pid msg sender)
  unfolding send local_or is_local_message get route broadcast_event
  send_ends n e es none msg sender w = refl
  send_ends n e es (some pid) msg sender w = ground (
    arith,
    broadcast_lem n e es (event (dead_letter (some pid) msg sender)) w,
    broadcast_lem n e es (event (remote_missing pid msg sender)) w,
  )

  -- Once the event stream's process is not registered, sending to an unregistered local PID has
  -- not ended after any number of nested calls: every dead letter makes another one.
  pub stale_stream_never_ends :
      (n : ℕ) (e : Engine) (es pid : Pid) (msg : Letter M) (sender : Option Pid)
      → e.event_stream ≡ some es
      → e.address ≡ es.address
      → lookup es.id e.registry.entries ≡ none
      → e.address ≡ pid.address
      → lookup pid.id e.registry.entries ≡ none
      → send n e (some pid) msg sender ≡ none
  unfolding send
  stale_stream_never_ends zero e es pid msg sender s h l h' l' = refl
  stale_stream_never_ends (suc n) e es pid msg sender s h l h' l' =
      send_dead n e pid msg sender h' l'
      ∙ ap (λ o. send n e o (event (dead_letter (some pid) msg sender)) none) s
      ∙ stale_stream_never_ends n e es es (event (dead_letter (some pid) msg sender)) none s h l h l

  -- On an engine whose event stream is registered, registering a process under a free ID starts
  -- it; under a taken ID it is not started, the old process stays and the event stream is told.
  -- Every other ID keeps its process, and the event stream stays registered.
  pub add_lem :
      (n : ℕ) (e : Engine) (es pid : Pid) (id : String)
      → Wired e es
      → Wired (add {M = M} (suc n) e pid).0 es
        × (lookup id (add {M = M} (suc n) e pid).0.registry.entries ≡ (
            if pid.id == id
            then elim (lookup id e.registry.entries) [ none ↦ some pid | some p ↦ some p ]
            else lookup id e.registry.entries))
        × ((add {M = M} (suc n) e pid).1
            ≡ some (
                (if has pid.id e.registry.entries
                  then process_send es (event (duplicate_id pid)) none
                  else process_start pid)
                ∷ []))
  unfolding add
  add_lem n e es pid id w = (
    add-Wired M (suc n) e es pid w,
    add-lookup M (suc n) e pid id,
    ground (arith, broadcast_lem n e es (event (duplicate_id pid)) w),
  )

  -- On an engine whose event stream is registered, a request whose response ID is free is routed
  -- to its target with the response as its sender, which is registered until the result is taken;
  -- after that every ID has the process that it had before.
  pub request_lem :
      (n : ℕ) (e : Engine) (es : Pid) (pid : Option Pid) (msg : Letter M) (drawn : String)
      (arrived : Option M) (id : String)
      → Wired e es
      → has (str_append "response" (str_append "/" drawn)) e.registry.entries ≡ false
      → ((request (suc (suc n)) e pid msg drawn).2
          ≡ some (
              process_start (request (suc (suc n)) e pid msg drawn).1
              ∷ route
                  (request (suc (suc n)) e pid msg drawn).0
                  es
                  pid
                  msg
                  (some (request (suc (suc n)) e pid msg drawn).1)))
        × (get
              (request (suc (suc n)) e pid msg drawn).0.registry
              (some (request (suc (suc n)) e pid msg drawn).1)
            ≡ some (request (suc (suc n)) e pid msg drawn).1)
        × (lookup id
              (result
                (request (suc (suc n)) e pid msg drawn).0
                (request (suc (suc n)) e pid msg drawn).1
                arrived).0.registry.entries
            ≡ lookup id e.registry.entries)
  unfolding request result remove get new_pid
  request_lem n e es pid msg drawn arrived id w free =
      let resp : Pid = new_pid e.address (str_append "response" (str_append "/" drawn)) in
      let e' : Engine = (add {M = M} (suc (suc n)) e resp).0 in
      let (w', at, out) = add_lem (suc n) e es resp resp.id w in
      (
        rw (out, send_ends n e' es pid msg (some resp) w') (rw (free) refl),
        at ∙ ground (arith, ==_refl resp.id, has-lookup resp.id e.registry.entries free),
        lookup-delete resp.id id e'.registry.entries
            ∙ ground (
              arith,
              ==_iff resp.id id,
              add-lookup M (suc (suc n)) e resp id,
              has-lookup resp.id e.registry.entries free,
            ),
      )
