-- ===== src/Remote/RoundTrip.antt =====
-- remote/stream_writer.go and remote/stream_reader.go: what is written is what is read.
use distributed_framework.Actor.Pid.{Pid, lookup_key}
use distributed_framework.Remote.Table.{empty-Good, Extends, Extends-trans}
use distributed_framework.Remote.Writer.{
  Serializer, StreamDeliver, Message, Envelope, Tables, encode_one, encode, envelope_of, no_tables,
}
use distributed_framework.Remote.Reader.{Delivery, over_wire, read_one, read_all, done}
use distributed_framework.Common.{
  ℕ, ◌^◌, ◌<◌, String, ◌≡◌, refl, sym, inl, Option, some, List, [], ◌∷◌, append-nil, arith, length,
  get_elem?, nat_keys, string_keys, ◌∙◌, map, All, ap,
}
use distributed_framework.Remote.Encoded.{
  or_else, first_sender, attributed, Longer, Longer-trans, Room, Sendable, GoodTables,
  encode_one_lem,
}

module _ {M B : Type 0} (hash : String → ℕ) (z : Serializer M B) (empty : B) (P : Pid → Type 0)
    (sep : (p q : Pid) → P p → P q → lookup_key hash p ≡ lookup_key hash q → p ≡ q)
    (decodes : (m : M) (b : B)
      → z.serialize m ≡ some b
      → z.deserialize b (z.type_name m) ≡ some m) where
  record Batch (t : Tables) (ds : List (StreamDeliver M)) (t' : Tables)
      (out : List (Option (Message B))) : Type 0 where
    longer : Longer t t'
    head : get_elem? t'.senders 0 ≡ or_else (get_elem? t.senders 0) (first_sender ds)
    reads :
        (env : Envelope B)
        → Extends t'.type_names env.type_names
        → Extends t'.senders env.senders
        → Extends t'.targets env.targets
        → read_all z empty env out ≡ (map (attributed (get_elem? env.senders 0)) ds, done)

  read_all-cons :
      (env : Envelope B) (m : Option (Message B)) (ms : List (Option (Message B))) (d : Delivery M)
      → read_one z empty env (over_wire empty m) ≡ inl d
      → read_all z empty env (m ∷ ms)
        ≡ (d ∷ (read_all z empty env ms).0, (read_all z empty env ms).1)
  unfolding read_all
  read_all-cons env m ms d h = rw (read_all, h) refl

  encode_lem :
      (ds : List (StreamDeliver M)) (t : Tables)
      → All (Sendable hash z empty P sep decodes) ds
      → GoodTables hash z empty P sep decodes t
      → Room t (length ds)
      → Batch t ds (encode hash z t ds).0 (encode hash z t ds).1
  unfolding encode read_all
  encode_lem [] t ok g room = record {
    longer = record {
      names = ([], sym (append-nil t.type_names));
      senders = ([], sym (append-nil t.senders));
      targets = ([], sym (append-nil t.targets));
    };
    head = ground arith;
    reads = λ env e1 e2 e3. refl;
  }
  encode_lem (d ∷ ds) t ok g room =
      let t1 : Tables = (encode_one hash z t d).0 in
      let t2 : Tables = (encode hash z t1 ds).0 in
      let one = encode_one_lem hash z empty P sep decodes t d ok.0 g (record {
        names = omega (arith, room.names);
        senders = omega (arith, room.senders);
        targets = omega (arith, room.targets);
      }) in
      let rest = encode_lem ds t1 ok.1 one.good (one.room (length ds) room) in
      record {
        longer = Longer-trans t t1 t2 one.longer rest.longer;
        head = rest.head ∙ ground (arith, one.head);
        reads = λ env e1 e2 e3.
            read_all-cons env (encode_one hash z t d).1 (encode hash z t1 ds).1
              (attributed (get_elem? env.senders 0) d)
              (one.reads env
                (Extends-trans t1.type_names t2.type_names env.type_names rest.longer.names e1)
                (Extends-trans t1.senders t2.senders env.senders rest.longer.senders e2)
                (Extends-trans t1.targets t2.targets env.targets rest.longer.targets e3))
            ∙ ap (λ r. (attributed (get_elem? env.senders 0) d ∷ r.0, r.1))
                (rest.reads env e1 e2 e3);
      }

  -- Reading the envelope that the stream writer makes of a batch delivers every message to its
  -- target, in order and without an error; its sender is its own, and a message without a sender
  -- gets the first sender of the batch. Every message serializes, the serializer's decoding gives
  -- the message back, the lookup keys tell the batch's PIDs apart, and the batch is below 2^31
  -- messages.
  pub round_trip :
      (ds : List (StreamDeliver M))
      → All (Sendable hash z empty P sep decodes) ds
      → length ds < 2 ^ 31
      → read_all z empty (envelope_of hash z ds) (envelope_of hash z ds).messages
        ≡ (map (attributed (first_sender ds)) ds, done)
  unfolding envelope_of no_tables
  round_trip ds ok small =
      let fresh : GoodTables hash z empty P sep decodes no_tables = record {
        names = empty-Good (λ n. n) (λ n. Unit);
        senders = empty-Good (lookup_key hash) P;
        targets = empty-Good (lookup_key hash) P;
      } in
      let b = encode_lem ds no_tables ok fresh (record {
        names = omega (arith, small);
        senders = omega (arith, small);
        targets = omega (arith, small);
      }) in
      let t : Tables = (encode hash z no_tables ds).0 in
      b.reads (envelope_of hash z ds) ([], sym (append-nil t.type_names))
        ([], sym (append-nil t.senders)) ([], sym (append-nil t.targets))
      ∙ ap (λ f. (map (attributed f) ds, done)) b.head
