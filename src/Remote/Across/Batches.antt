-- ===== src/Remote/Across/Batches.antt =====
-- The batches of messages between two engines: remote/stream_writer.go and remote/stream_reader.go
-- between the engines of actor/engine.go.
use distributed_framework.Actor.Pid.{Pid, lookup_key}
use distributed_framework.Actor.Engine.{Engine}
use distributed_framework.Remote.Node.{Remote}
use distributed_framework.Remote.Router.{StreamRouter}
use distributed_framework.Remote.Router.Laws.{Routed, writer_pid}
use distributed_framework.Remote.Writer.{Serializer, StreamDeliver, Envelope, envelope_of}
use distributed_framework.Remote.Reader.{Delivery, Received, envelope, receive, read_all, done}
use distributed_framework.Remote.RoundTrip.{round_trip}
use distributed_framework.Remote.Encoded.{Sendable, attributed, first_sender}
use distributed_framework.Remote.Across.{
  leave, route_all, arrive, locally, On, HasSender, both, joined, arrive_lem, arrive-append,
  locally-append, leave_lem, route_all_lem,
}
use distributed_framework.Common.{
  ℕ, suc, ◌^◌, ◌<◌, String, ◌≡◌, refl, sym, ap₂, ◌∙◌, false, Option, some, List, [], ◌∷◌, ◌++◌, map,
  length, All, All-append, ◌==◌, nat_keys, string_keys,
}

module _ {M B : Type 0} (hash : String → ℕ) (z : Serializer M B) (empty : B) where
  -- The writer's envelopes of the batches, as the reader's stream brings them.
  unfoldable pub on_the_wire : List (List (StreamDeliver M)) → List (Received B)
  on_the_wire [] = []
  on_the_wire (ds ∷ rest) = envelope (envelope_of hash z ds) ∷ on_the_wire rest

  receive_more :
      (env : Envelope B) (rs : List (Received B)) (out : List (Delivery M))
      → read_all z empty env env.messages ≡ (out, done)
      → receive z empty (envelope env ∷ rs)
        ≡ (out ++ (receive z empty rs).0, (receive z empty rs).1)
  unfolding receive
  receive_more env rs out h = rw h refl

  module _ (P : Pid → Type 0)
      (sep : (p q : Pid) → P p → P q → lookup_key hash p ≡ lookup_key hash q → p ≡ q)
      (decodes : (m : M) (b : B)
        → z.serialize m ≡ some b
        → z.deserialize b (z.type_name m) ≡ some m) where
    -- A batch that can be written and whose messages all have senders and are for one address.
    pub record Batch (address : String) (ds : List (StreamDeliver M)) : Type 0 where
      pub sendable : All (Sendable hash z empty P sep decodes) ds
      pub small : length ds < 2 ^ 31
      pub on : All (On address) ds
      pub from : All HasSender ds

    no_batch :
        (n : ℕ) (b : Engine)
        → ((receive z empty []).1 ≡ done)
          × (arrive {M = M} n b (receive z empty []).0 ≡ locally {M = M} (suc n) b [])
    unfolding receive arrive locally
    no_batch n b = (refl, refl)

    received :
        (n : ℕ) (b : Engine) (batches : List (List (StreamDeliver M)))
        → All (Batch b.address) batches
        → ((receive z empty (on_the_wire batches)).1 ≡ done)
          × (arrive n b (receive z empty (on_the_wire batches)).0
              ≡ locally (suc n) b (joined batches))
    unfolding on_the_wire
    received n b [] h = no_batch n b
    received n b (ds ∷ rest) h =
        let (e, more) = received n b rest h.1 in
        let first : Option Pid = first_sender ds in
        rw
          (receive_more (envelope_of hash z ds) (on_the_wire rest) (map (attributed first) ds)
            (round_trip hash z empty P sep decodes ds (h.0).sendable (h.0).small))
          (
            e,
            arrive-append n b (map (attributed first) ds) (receive z empty (on_the_wire rest)).0
                ∙ ap₂ both (arrive_lem n b ds first (h.0).on (h.0).from) more
                ∙ sym (locally-append (suc n) b ds (joined rest)),
          )

    joined-On :
        (address : String) (batches : List (List (StreamDeliver M)))
        → All (Batch address) batches
        → All (On address) (joined batches)
    joined-On address [] h = tt
    joined-On address (ds ∷ rest) h =
        All-append (On address) ds (joined rest) (h.0).on (joined-On address rest h.1)

    -- Messages with senders that an engine with a remote sends to another engine's address are
    -- given to the remote's router one by one in order, by the router to that address's one writer
    -- in order, and, in whatever batches the writer takes them, come out of the other engine's
    -- reader without an error and do there exactly what sending them on that engine itself does.
    -- The router's streams are right, and each batch can be written: its messages serialize and
    -- decode, its keys tell its PIDs apart, and it is below 2^31 messages.
    pub across_lem :
        {T : Type 0} (n : ℕ) (a b : Engine) (r : Remote T) (addr : String) (router : Pid)
        (s : StreamRouter) (batches : List (List (StreamDeliver M)))
        → a.remote ≡ some addr
        → r.stream_router_pid ≡ some router
        → (a.address == b.address) ≡ false
        → Routed s
        → All (Batch b.address) batches
        → (leave (suc n) a r (joined batches) ≡ some (map (λ d. (some router, d)) (joined batches)))
          × (route_all s (joined batches) ≡ map (λ d. (writer_pid s b.address, d)) (joined batches))
          × ((receive z empty (on_the_wire batches)).1 ≡ done)
          × (arrive n b (receive z empty (on_the_wire batches)).0
              ≡ locally (suc n) b (joined batches))
    across_lem n a b r addr router s batches h k far v ok =
        let on = joined-On b.address batches ok in
        let (e, home) = received n b batches ok in
        (
          leave_lem n a r addr b.address router (joined batches) h k far on,
          route_all_lem s b.address (joined batches) v on,
          e,
          home,
        )
