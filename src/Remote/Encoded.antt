-- ===== src/Remote/Encoded.antt =====
-- remote/stream_writer.go and remote/stream_reader.go: one message as it is written and read.
use distributed_framework.Common.Dict.{Dict}
use distributed_framework.Actor.Pid.{Pid, lookup_key}
use distributed_framework.Remote.Intern.{lookup_pids, lookup_type_name}
use distributed_framework.Remote.Table.{
  Extends, Extends-trans, get_elem?-Extends, Good, intern_lem, intern-head,
}
use distributed_framework.Remote.Writer.{
  Serializer, StreamDeliver, Message, Envelope, Tables, encode_one,
}
use distributed_framework.Remote.Reader.{Delivery, over_wire, sender_of, read_one}
use distributed_framework.Common.{
  ℕ, suc, ◌+◌, ◌^◌, ◌≤◌, ◌<◌, String, ◌≡◌, refl, sym, inl, Option, none, some, List, [], ◌∷◌,
  append-nil, arith, length, get_elem?, nat_keys, string_keys, ◌∙◌,
}

-- The sender that is not nil, or else the other.
abbrev pub or_else : Option Pid → Option Pid → Option Pid
or_else none q = q
or_else (some p) q = some p

-- The first sender of the batch that is not nil.
abbrev pub first_sender : {M : Type 0} → List (StreamDeliver M) → Option Pid
first_sender [] = none
first_sender (d ∷ ds) = or_else d.sender (first_sender ds)

-- What the other engine sends on for a message, where `first` is the sender that a message without
-- one gets.
abbrev pub attributed : {M : Type 0} → Option Pid → StreamDeliver M → Delivery M
attributed first d = record { target = d.target; payload = d.msg; sender = or_else d.sender first }

pub record Longer (t t' : Tables) : Type 0 where
  pub names : Extends t.type_names t'.type_names
  pub senders : Extends t.senders t'.senders
  pub targets : Extends t.targets t'.targets

pub Longer-trans : (t t' t'' : Tables) → Longer t t' → Longer t' t'' → Longer t t''
Longer-trans t t' t'' a b = record {
  names = Extends-trans t.type_names t'.type_names t''.type_names a.names b.names;
  senders = Extends-trans t.senders t'.senders t''.senders a.senders b.senders;
  targets = Extends-trans t.targets t'.targets t''.targets a.targets b.targets;
}

-- Each table has room for that many more values.
pub record Room (t : Tables) (n : ℕ) : Type 0 where
  pub names : length t.type_names + n < 2 ^ 31
  pub senders : length t.senders + n < 2 ^ 31
  pub targets : length t.targets + n < 2 ^ 31

sender_of-found :
    (ps : List Pid) (i : ℕ) {p : Pid} → get_elem? ps i ≡ some p → sender_of ps i ≡ some (some p)
unfolding sender_of
sender_of-found [] i h = cc
sender_of-found (q ∷ ps) i h = rw (h) refl

sender_of_zero : (ps : List Pid) → sender_of ps 0 ≡ some (get_elem? ps 0)
unfolding sender_of
sender_of_zero [] = refl
sender_of_zero (q ∷ ps) = refl

module _ {M B : Type 0} (hash : String → ℕ) (z : Serializer M B) (empty : B) (P : Pid → Type 0)
    (sep : (p q : Pid) → P p → P q → lookup_key hash p ≡ lookup_key hash q → p ≡ q)
    (decodes : (m : M) (b : B)
      → z.serialize m ≡ some b
      → z.deserialize b (z.type_name m) ≡ some m) where
  abbrev SenderOk : Option Pid → Type 0
  SenderOk none = Unit
  SenderOk (some p) = P p

  -- A message that serializes, with PIDs that their keys tell apart.
  pub record Sendable (d : StreamDeliver M) : Type 0 where
    pub bytes : (b : B) × (z.serialize d.msg ≡ some b)
    pub target_ok : P d.target
    pub sender_ok : SenderOk d.sender

  pub record GoodTables (t : Tables) : Type 0 where
    pub names : Good (λ n. n) (λ n. Unit) t.type_lookup t.type_names
    pub senders : Good (lookup_key hash) P t.sender_lookup t.senders
    pub targets : Good (lookup_key hash) P t.target_lookup t.targets

  -- What looking up a sender gives.
  record Looked (xs : List Pid) (s : Option Pid) (r : ℕ × Dict ℕ ℕ × List Pid) : Type 0 where
    good : Good (lookup_key hash) P r.1 r.2
    more : Extends xs r.2
    longer : length r.2 ≤ length xs + 1
    head : get_elem? r.2 0 ≡ or_else (get_elem? xs 0) s
    reads : (ys : List Pid) → Extends r.2 ys → sender_of ys r.0 ≡ some (or_else s (get_elem? ys 0))

  lookup_pids_lem :
      (s : Option Pid) (m : Dict ℕ ℕ) (xs : List Pid)
      → SenderOk s
      → Good (lookup_key hash) P m xs
      → length xs < 2 ^ 31
      → Looked xs s (lookup_pids hash m s xs)
  unfolding lookup_pids
  lookup_pids_lem none m xs ok g small = record {
    good = g;
    more = ([], sym (append-nil xs));
    longer = omega arith;
    head = ground arith;
    reads = λ ys e. sender_of_zero ys;
  }
  lookup_pids_lem (some p) m xs ok g small =
      let r = intern_lem (lookup_key hash) P p m xs sep ok g (omega arith) in
      record {
        good = r.good;
        more = r.more;
        longer = r.longer;
        head = intern-head (lookup_key hash) P p m xs g ∙ ground arith;
        reads = λ ys e. sender_of-found ys (lookup_pids hash m (some p) xs).0 (
            get_elem?-Extends (lookup_pids hash m (some p) xs).2 ys
              (lookup_pids hash m (some p) xs).0 e r.found);
      }

  pub record Encoded (t : Tables) (d : StreamDeliver M) (t' : Tables) (out : Option (Message B))
      : Type 0 where
    pub good : GoodTables t'
    pub longer : Longer t t'
    pub room : (n : ℕ) → Room t (suc n) → Room t' n
    pub head : get_elem? t'.senders 0 ≡ or_else (get_elem? t.senders 0) d.sender
    pub reads :
        (env : Envelope B)
        → Extends t'.type_names env.type_names
        → Extends t'.senders env.senders
        → Extends t'.targets env.targets
        → read_one z empty env (over_wire empty out) ≡ inl (attributed (get_elem? env.senders 0) d)

  read_one_lem :
      (env : Envelope B) (m : Message B) (tname : String) (payload : M) (target : Pid)
      (sender : Option Pid)
      → get_elem? env.type_names m.type_name_index ≡ some tname
      → z.deserialize m.content tname ≡ some payload
      → get_elem? env.targets m.target_index ≡ some target
      → sender_of env.senders m.sender_index ≡ some sender
      → read_one z empty env m
        ≡ inl (record { target = target; payload = payload; sender = sender })
  unfolding read_one
  read_one_lem env m tname payload target sender h1 h2 h3 h4 = rw (read_one, h1, h2, h3, h4) refl

  pub encode_one_lem :
      (t : Tables) (d : StreamDeliver M)
      → Sendable d
      → GoodTables t
      → Room t 0
      → Encoded t d (encode_one hash z t d).0 (encode_one hash z t d).1
  unfolding encode_one lookup_pids lookup_type_name over_wire
  encode_one_lem t d ok g room =
      let b : B = ok.bytes.0 in
      let n =
        intern_lem (λ n. n) (λ n. Unit) (z.type_name d.msg) t.type_lookup t.type_names
          (λ x y _ _ e. e) tt g.names (omega (arith, room.names)) in
      let s =
        lookup_pids_lem d.sender t.sender_lookup t.senders ok.sender_ok g.senders
          (omega (arith, room.senders)) in
      let r =
        intern_lem (lookup_key hash) P d.target t.target_lookup t.targets sep ok.target_ok g.targets
          (omega (arith, room.targets)) in
      record {
        good = record { names = n.good; senders = s.good; targets = r.good };
        longer = record { names = n.more; senders = s.more; targets = r.more };
        room = λ k f. record {
          names = omega (arith, f.names, n.longer);
          senders = omega (arith, f.senders, s.longer);
          targets = omega (arith, f.targets, r.longer);
        };
        head = s.head;
        reads = λ env e1 e2 e3. rw (ok.bytes.1) (
            read_one_lem env
              (record {
                content = b;
                type_name_index =
                    (lookup_type_name t.type_lookup (z.type_name d.msg) t.type_names).0;
                sender_index = (lookup_pids hash t.sender_lookup d.sender t.senders).0;
                target_index = (lookup_pids hash t.target_lookup (some d.target) t.targets).0;
              })
              (z.type_name d.msg) d.msg d.target (or_else d.sender (get_elem? env.senders 0))
              (get_elem?-Extends (lookup_type_name t.type_lookup (z.type_name d.msg) t.type_names).2
                env.type_names (lookup_type_name t.type_lookup (z.type_name d.msg) t.type_names).0
                e1 n.found)
              (decodes d.msg b ok.bytes.1)
              (get_elem?-Extends (lookup_pids hash t.target_lookup (some d.target) t.targets).2
                env.targets (lookup_pids hash t.target_lookup (some d.target) t.targets).0 e3
                r.found)
              (s.reads env.senders e2));
      }
