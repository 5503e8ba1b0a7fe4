-- ===== src/Remote/Across.antt =====
-- A message on its way from one engine to another: actor/engine.go, remote/remote.go,
-- remote/stream_router.go, remote/stream_writer.go and remote/stream_reader.go composed.
pub mod Batches
use distributed_framework.Actor.Pid.{Pid, lookup_key, new_pid}
use distributed_framework.Actor.Engine as Engine
use distributed_framework.Actor.Engine.{Engine, Letter, plain, Outside, remote_send, send_local}
use distributed_framework.Remote.Node as Node
use distributed_framework.Remote.Node.{Remote}
use distributed_framework.Remote.Router.{StreamRouter, deliver}
use distributed_framework.Remote.Router as Router
use distributed_framework.Remote.Router.Laws.{
  Routed, sends, writer_pid, receive-Routed, sends-deliver,
}
use distributed_framework.Remote.Writer.{Serializer, StreamDeliver, Envelope, envelope_of}
use distributed_framework.Remote.Reader.{Delivery, Received, envelope, receive, read_all, done}
use distributed_framework.Remote.RoundTrip.{round_trip}
use distributed_framework.Remote.Encoded.{or_else, Sendable, attributed, first_sender}
use Prim.Native.String.{◌++◌ as str_append}
use distributed_framework.Common.{
  ◌>>=◌, ℕ, suc, String, ◌≡◌, refl, false, Option, some, List, [], ◌∷◌, ◌++◌, map, All, ◌==◌,
  nat_keys, string_keys, ap, arith, sym, ap₂, ◌∙◌, ==_iff, append_assoc, ◌^◌, ◌<◌, none, length,
}

-- One list of effects and then another, where both are there.
abbrev pub both {ℓ} : {A : Type ℓ} → Option (List A) → Option (List A) → Option (List A)
both none y = none
both (some xs) none = none
both (some xs) (some ys) = some (xs ++ ys)

both_assoc {ℓ} : {A : Type ℓ} (x y z : Option (List A)) → both x (both y z) ≡ both (both x y) z
both_assoc none y z = refl
both_assoc (some xs) none z = refl
both_assoc (some xs) (some ys) none = refl
both_assoc (some xs) (some ys) (some zs) = ap some (sym (append_assoc xs ys zs))

both_nil {ℓ} : {A : Type ℓ} (z : Option (List A)) → both (some []) z ≡ z
both_nil none = refl
both_nil (some zs) = refl

same_writer :
    (s s' : StreamRouter) (address : String)
    → s.engine_address ≡ s'.engine_address
    → writer_pid s address ≡ writer_pid s' address
unfolding writer_pid
same_writer s s' address e = ap (λ t. new_pid t (str_append "stream" (str_append "/" address))) e

module _ {M : Type 0} where
  -- What the remote makes of the messages that its engine gives to it: the router's PID and the
  -- message for the router.
  unfoldable pub handed :
      {T : Type 0} → Remote T → List (Outside M) → List (Option Pid × StreamDeliver M)
  handed r [] = []
  handed r (remote_send pid (plain m) sender ∷ os) = Node.send r pid m sender ∷ handed r os
  handed r (o ∷ os) = handed r os

  -- Each message is sent on the engine, whose remote is `r`.
  unfoldable pub leave :
      {T : Type 0}
      → ℕ
      → Engine
      → Remote T
      → List (StreamDeliver M)
      → Option (List (Option Pid × StreamDeliver M))
  leave n a r [] = some []
  leave n a r (d ∷ ds) = do
    os ← Engine.send n a (some d.target) (plain d.msg) d.sender
    rest ← leave n a r ds
    some (handed r os ++ rest)

  -- The router's messages to the writers.
  unfoldable pub route_all : StreamRouter → List (StreamDeliver M) → List (Pid × StreamDeliver M)
  route_all s [] = []
  route_all s (d ∷ ds) = let (s', es) = Router.receive s (deliver d) in sends es ++ route_all s' ds

  -- `SendLocal` of each message that the reader has read.
  unfoldable pub arrive : ℕ → Engine → List (Delivery M) → Option (List (Outside M))
  arrive n b [] = some []
  arrive n b (d ∷ ds) =
      both (send_local n b (some d.target) (plain d.payload) d.sender) (arrive n b ds)

  -- The same messages sent on the other engine itself.
  unfoldable pub locally : ℕ → Engine → List (StreamDeliver M) → Option (List (Outside M))
  locally n b [] = some []
  locally n b (d ∷ ds) =
      both (Engine.send n b (some d.target) (plain d.msg) d.sender) (locally n b ds)

  abbrev pub On : String → StreamDeliver M → Type 0
  On address d = d.target.address ≡ address

  abbrev pub HasSender : StreamDeliver M → Type 0
  HasSender d = (p : Pid) × (d.sender ≡ some p)

  sent_across :
      (n : ℕ) (a : Engine) (addr address : String) (d : StreamDeliver M)
      → a.remote ≡ some addr
      → (a.address == address) ≡ false
      → d.target.address ≡ address
      → Engine.send (suc n) a (some d.target) (plain d.msg) d.sender
        ≡ some (remote_send d.target (plain d.msg) d.sender ∷ [])
  unfolding Engine.send Engine.is_local_message
  sent_across n a addr address d h far on =
      let far' : (a.address == d.target.address) ≡ false = rw (on) far in ground (arith, h, far')

  pub leave_lem :
      {T : Type 0} (n : ℕ) (a : Engine) (r : Remote T) (addr address : String) (router : Pid)
      (ds : List (StreamDeliver M))
      → a.remote ≡ some addr
      → r.stream_router_pid ≡ some router
      → (a.address == address) ≡ false
      → All (On address) ds
      → leave (suc n) a r ds ≡ some (map (λ d. (some router, d)) ds)
  unfolding leave handed Node.send
  leave_lem n a r addr address router [] h k far on = refl
  leave_lem n a r addr address router (d ∷ ds) h k far on =
      rw (sent_across n a addr address d h far on.0) (
        rw (leave_lem n a r addr address router ds h k far on.1)
          (ap (λ p. some ((p, d) ∷ map (λ x. (some router, x)) ds)) k))

  kept_address :
      (s : StreamRouter) (d : StreamDeliver M)
      → (Router.receive s (deliver d)).0.engine_address ≡ s.engine_address
  unfolding Router.receive Router.deliver_stream
  kept_address s d = ground arith

  pub route_all_lem :
      (s : StreamRouter) (address : String) (ds : List (StreamDeliver M))
      → Routed s
      → All (On address) ds
      → route_all s ds ≡ map (λ d. (writer_pid s address, d)) ds
  unfolding route_all
  route_all_lem s address [] v on = refl
  route_all_lem s address (d ∷ ds) v on =
      let w : Routed (Router.receive s (deliver d)).0 = (receive-Routed s (deliver d) d v).0 in
      let s' : StreamRouter = (Router.receive s (deliver d)).0 in
      ap₂ ◌++◌ (sends-deliver s d v ∙ ap (λ t. (writer_pid s t, d) ∷ []) on.0) (
        route_all_lem s' address ds w on.1
        ∙ ap (λ p. map (λ x. (p, x)) ds) (same_writer s' s address (kept_address s d)))

  sent_home :
      (n : ℕ) (b : Engine) (target : Pid) (msg : M) (sender : Option Pid)
      → target.address ≡ b.address
      → send_local n b (some target) (plain msg) sender
        ≡ Engine.send (suc n) b (some target) (plain msg) sender
  unfolding Engine.send Engine.is_local_message send_local Engine.broadcast_event
  sent_home n b target msg sender on = ground (arith, ==_iff b.address target.address)

  pub arrive_lem :
      (n : ℕ) (b : Engine) (ds : List (StreamDeliver M)) (first : Option Pid)
      → All (On b.address) ds
      → All HasSender ds
      → arrive n b (map (attributed first) ds) ≡ locally (suc n) b ds
  unfolding arrive locally
  arrive_lem n b [] first on from = refl
  arrive_lem n b (d ∷ ds) first on from =
      let (p, h) = from.0 in
      let own : or_else d.sender first ≡ d.sender = ap (λ q. or_else q first) h ∙ sym h in
      ap₂ both
        (ap (send_local n b (some d.target) (plain d.msg)) own
          ∙ sent_home n b d.target d.msg d.sender on.0)
        (arrive_lem n b ds first on.1 from.1)

  pub arrive-append :
      (n : ℕ) (b : Engine) (xs ys : List (Delivery M))
      → arrive n b (xs ++ ys) ≡ both (arrive n b xs) (arrive n b ys)
  unfolding arrive
  arrive-append n b [] ys = sym (both_nil (arrive n b ys))
  arrive-append n b (x ∷ xs) ys =
      ap (both (send_local n b (some x.target) (plain x.payload) x.sender))
        (arrive-append n b xs ys)
      ∙ both_assoc _ (arrive n b xs) (arrive n b ys)

  pub locally-append :
      (n : ℕ) (b : Engine) (xs ys : List (StreamDeliver M))
      → locally n b (xs ++ ys) ≡ both (locally n b xs) (locally n b ys)
  unfolding locally
  locally-append n b [] ys = sym (both_nil (locally n b ys))
  locally-append n b (x ∷ xs) ys =
      ap (both (Engine.send n b (some x.target) (plain x.msg) x.sender)) (locally-append n b xs ys)
      ∙ both_assoc _ (locally n b xs) (locally n b ys)

  -- The messages of all batches.
  abbrev pub joined : List (List (StreamDeliver M)) → List (StreamDeliver M)
  joined [] = []
  joined (ds ∷ rest) = ds ++ joined rest
