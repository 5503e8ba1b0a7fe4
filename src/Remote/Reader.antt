-- ===== src/Remote/Reader.antt =====
-- remote/stream_reader.go: the reader of a stream from another engine.
use distributed_framework.Actor.Pid.{Pid}
use distributed_framework.Remote.Writer.{Serializer, Message, Envelope}
use distributed_framework.Common.{
  ◌>>=◌, ℕ, ◌⊎◌, inl, inr, Option, none, some, List, [], ◌∷◌, ◌++◌, get_elem?, nat_keys,
  string_keys,
}

-- `SendLocal` of one message.
pub record Delivery (M : Type 0) : Type 0 where
  pub target : Pid
  pub payload : M
  pub sender : Option Pid

-- How reading ends: the envelope is done, an error is returned, or an index is out of range.
pub data Ending : Type 0 where
  done failed panicked : Ending

-- What `Recv` answers.
pub data Received (B : Type 0) : Type 0 where
  envelope : Envelope B → Received B
  canceled broken : Received B

-- The network's copy of a message. Protobuf writes a nil element as an empty message, whose
-- content is `empty`.
unfoldable pub over_wire : {B : Type 0} → B → Option (Message B) → Message B
over_wire empty none = record {
  content = empty;
  type_name_index = 0;
  sender_index = 0;
  target_index = 0;
}
over_wire empty (some m) = m

-- The sender of a message, or `none` where the index panics.
unfoldable pub sender_of : List Pid → ℕ → Option (Option Pid)
sender_of [] i = some none
sender_of (p ∷ ps) i = do q ← get_elem? (p ∷ ps) i; some (some q)

module _ {M B : Type 0} (z : Serializer M B) (empty : B) where
  -- One message: its delivery, or how reading ends.
  unfoldable pub read_one : Envelope B → Message B → Delivery M ⊎ Ending
  unfolding sender_of
  read_one env m = elim (get_elem? env.type_names m.type_name_index) [
    | none ↦ inr panicked
    | some tname ↦ elim (z.deserialize m.content tname) [
      | none ↦ inr failed
      | some payload ↦ elim (get_elem? env.targets m.target_index) [
        | none ↦ inr panicked
        | some target ↦ elim (sender_of env.senders m.sender_index) [
          | none ↦ inr panicked
          | some sender ↦ inl (record { target = target; payload = payload; sender = sender })
        ]
      ]
    ]
  ]

  unfoldable pub read_all : Envelope B → List (Option (Message B)) → List (Delivery M) × Ending
  unfolding read_one over_wire
  read_all env [] = ([], done)
  read_all env (m ∷ ms) =
      let rest = read_all env ms in
      elim (read_one env (over_wire empty m)) [ inl d ↦ (d ∷ rest.0, rest.1) | inr e ↦ ([], e) ]

  -- `Receive`, over the answers of the stream in order.
  unfoldable pub receive : List (Received B) → List (Delivery M) × Ending
  unfolding read_all
  receive [] = ([], done)
  receive (canceled ∷ rs) = ([], done)
  receive (broken ∷ rs) = ([], failed)
  receive (envelope env ∷ rs) = chain (read_all env env.messages) (receive rs)
    where
      chain : List (Delivery M) × Ending → List (Delivery M) × Ending → List (Delivery M) × Ending
      chain (ds, done) (ds', e) = (ds ++ ds', e)
      chain (ds, failed) rest = (ds, failed)
      chain (ds, panicked) rest = (ds, panicked)
