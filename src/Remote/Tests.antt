-- ===== src/Remote/Tests.antt =====
-- remote: a batch of three messages, written and read.
use distributed_framework.Common.Dict.{lookup}
use distributed_framework.Actor.Pid.{Pid, lookup_key, key_text}
use distributed_framework.Remote.Writer.{Serializer, StreamDeliver, envelope_of}
use distributed_framework.Remote.Reader.{done, read_all}
use distributed_framework.Remote.RoundTrip.{round_trip}
use distributed_framework.Remote.Encoded.{Sendable, attributed, first_sender}
use distributed_framework.Remote.Router.{StreamRouter, receive, deliver}
use distributed_framework.Remote.Router.Laws.{Routed, writer_pid, receive-Routed}
use distributed_framework.Remote.Node.{
  Config, Remote, state_initialized, state_stopped, listen_failed, already_started, new, start,
  stop,
}
use distributed_framework.Remote.Node.Life.{
  Run, at_rest, starts, stops, routers, is_running, life_lem, stopped_for_good, failed_start-stop,
}
use distributed_framework.Actor.Engine.{Engine}
use distributed_framework.Remote.Reader.{receive as read_stream}
use distributed_framework.Remote.Node.{state_running}
use distributed_framework.Remote.Across.{leave, route_all, arrive, locally, joined}
use distributed_framework.Remote.Across.Batches.{Batch, on_the_wire, across_lem}
use Prim.Native.String.{len as str_len}
use distributed_framework.Common.Dict.{has}
use distributed_framework.Remote.Router.Laws.{told}
use distributed_framework.Common.{
  ℕ, String, ◌≡◌, refl, sym, ap, ◌∙◌, ◌≢◌, ◌⊎◌, inl, inr, none, some, List, [], ◌∷◌, map, arith,
  All, nat_keys, string_keys, ◌≤◌, true, false, nat_eq, if◌then◌else◌, Option,
}

-- Numbers that are their own bytes.
abbrev serializer : Serializer ℕ ℕ
serializer = record {
  serialize = λ m. some m;
  type_name = λ m. "number";
  deserialize = λ b name. some b;
}

abbrev near : Pid
near = record { address = "a:1"; id = "x" }

abbrev far : Pid
far = record { address = "b:1"; id = "long" }

-- The length of a text, as a hash that tells the two PIDs apart.
abbrev hash : String → ℕ
hash = str_len

abbrev Known : Pid → Type 0
Known p = (p ≡ near) ⊎ (p ≡ far)

keys_differ : lookup_key hash near ≢ lookup_key hash far
unfolding lookup_key key_text
keys_differ e = omega (arith, e)

known_apart : (p q : Pid) → Known p → Known q → lookup_key hash p ≡ lookup_key hash q → p ≡ q
known_apart p q (inl a) (inl b) e = a ∙ sym b
known_apart p q (inr a) (inr b) e = a ∙ sym b
known_apart p q (inl a) (inr b) e =
    absurd (keys_differ (ap (lookup_key hash) (sym a) ∙ e ∙ ap (lookup_key hash) b))
known_apart p q (inr a) (inl b) e =
    absurd (keys_differ (ap (lookup_key hash) (sym b) ∙ sym e ∙ ap (lookup_key hash) a))

decodes :
    (m b : ℕ)
    → serializer.serialize m ≡ some b
    → serializer.deserialize b (serializer.type_name m) ≡ some m
decodes m b e = sym e

abbrev batch : List (StreamDeliver ℕ)
batch =
    record { sender = none; target = far; msg = 1 }
    ∷ record { sender = some near; target = far; msg = 2 }
    ∷ record { sender = some far; target = near; msg = 3 }
    ∷ []

batch_ok : All (Sendable hash serializer 0 Known known_apart decodes) batch
batch_ok = (
  record { bytes = (1, refl); target_ok = inr refl; sender_ok = tt },
  (
    record { bytes = (2, refl); target_ok = inr refl; sender_ok = inl refl },
    (record { bytes = (3, refl); target_ok = inl refl; sender_ok = inr refl }, tt),
  ),
)

round_trip_example :
    read_all serializer 0
      (envelope_of hash serializer batch)
      (envelope_of hash serializer batch).messages
    ≡ (map (attributed (first_sender batch)) batch, done)
round_trip_example =
    round_trip hash serializer 0 Known known_apart decodes batch batch_ok (omega arith)

abbrev router : StreamRouter
router = record {
  engine_address = "a:1";
  streams = [];
  pid = record { address = "a:1"; id = "router/1" };
}

router-Routed : Routed router
unfolding lookup
router-Routed a p e = cc

abbrev letter : StreamDeliver ℕ
letter = record { sender = none; target = far; msg = 1 }

receive-Routed_example :
    Routed (receive router (deliver letter)).0
    × (told (receive router (deliver letter)).1 ≡ (
        if has "b:1" router.streams
        then inr (writer_pid router "b:1", letter) ∷ []
        else inl (writer_pid router "b:1", "b:1", router.pid)
          ∷ inr (writer_pid router "b:1", letter)
          ∷ []))
    × (lookup "b:1" (receive router (deliver letter)).0.streams ≡ some (writer_pid router "b:1"))
receive-Routed_example = receive-Routed router (deliver letter) letter router-Routed

abbrev blank : Config ℕ
blank = record { tls_config = none; buff_size = 0 }

-- A remote that is started, stopped, and started again in vain.
abbrev up : Remote ℕ
up = (start true true near (new "a:1" blank)).0

abbrev down : Remote ℕ
down = record up { state = state_stopped; listening = false }

stop-up : stop up ≡ some (down, true)
unfolding stop start new
stop-up = refl

up-Run : Run (new "a:1" blank) 1 up
unfolding start new
up-Run = starts true true near (at_rest (new "a:1" blank))

life_lem_example :
    (down.addr ≡ "a:1")
    × (down.config ≡ blank)
    × (1 ≤ 1)
    × (1 ≡ routers down.stream_router_pid)
    × (down.listening ≡ (if is_running down.state then nat_eq 1 1 else false))
life_lem_example = life_lem "a:1" blank 1 down (stops up-Run stop-up)

down-Run : Run down 0 down
unfolding start new
down-Run = starts true true far (at_rest down)

stopped_for_good_example : (down.listening ≡ false) × (down ≡ down) × ◌≡◌ {A = ℕ} 0 0
stopped_for_good_example = stopped_for_good up down down 0 stop-up down-Run

-- The address is taken.
listen-failed : (start false true near (new "a:1" blank)).1 ≡ some listen_failed
unfolding start new
listen-failed = refl

new-initialized : (new "a:1" blank).state ≡ state_initialized
unfolding new
new-initialized = refl

failed_start-stop_example :
    (stop (start false true near (new "a:1" blank)).0 ≡ none)
    × (start true true near (start false true near (new "a:1" blank)).0
        ≡ ((start false true near (new "a:1" blank)).0, some already_started))
failed_start-stop_example =
    failed_start-stop "a:1" blank 0 (new "a:1" blank) false true true true near near listen_failed
      (at_rest (new "a:1" blank)) new-initialized listen-failed

-- Two engines, and two batches from the first to the second.
abbrev engine_on : String → Option Pid → Engine
engine_on address stream = record {
  registry = record { entries = ("long", far) ∷ [] };
  address = address;
  remote = some address;
  event_stream = stream;
}

abbrev node : Remote ℕ
node = record {
  addr = "a:1";
  config = blank;
  stream_router_pid = some (router.pid);
  state = state_running;
  listening = true;
}

abbrev one : ℕ → StreamDeliver ℕ
one m = record { sender = some near; target = far; msg = m }

abbrev batches : List (List (StreamDeliver ℕ))
batches = (one 1 ∷ one 2 ∷ []) ∷ (one 3 ∷ []) ∷ []

one-Sendable : (m : ℕ) → Sendable hash serializer 0 Known known_apart decodes (one m)
one-Sendable m = record { bytes = (m, refl); target_ok = inr refl; sender_ok = inl refl }

batches_ok : All (Batch hash serializer 0 Known known_apart decodes "b:1") batches
batches_ok = (
  record {
    sendable = (one-Sendable 1, (one-Sendable 2, tt));
    small = omega arith;
    on = (refl, (refl, tt));
    from = ((near, refl), ((near, refl), tt));
  },
  (
    record {
      sendable = (one-Sendable 3, tt);
      small = omega arith;
      on = (refl, tt);
      from = ((near, refl), tt);
    },
    tt,
  ),
)

across_lem_example :
    (leave 1 (engine_on "a:1" none) node (joined batches)
      ≡ some (map (λ d. (some (router.pid), d)) (joined batches)))
    × (route_all router (joined batches) ≡ map (λ d. (writer_pid router "b:1", d)) (joined batches))
    × ((read_stream serializer 0 (on_the_wire hash serializer 0 batches)).1 ≡ done)
    × (arrive 0
          (engine_on "b:1" none)
          (read_stream serializer 0 (on_the_wire hash serializer 0 batches)).0
        ≡ locally 1 (engine_on "b:1" none) (joined batches))
across_lem_example =
    across_lem hash serializer 0 Known known_apart decodes 0 (engine_on "a:1" none)
      (engine_on "b:1" none) node "a:1" router.pid router batches refl refl refl router-Routed
      batches_ok
