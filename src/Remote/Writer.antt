-- ===== src/Remote/Writer.antt =====
-- remote/stream_writer.go: the writer of a stream to another engine.
use distributed_framework.Common.Dict.{Dict}
use distributed_framework.Actor.Pid.{Pid, new_pid}
use distributed_framework.Remote.Intern.{lookup_pids, lookup_type_name}
use Prim.Native.String.{◌++◌ as str_append}
use distributed_framework.Common.{
  ℕ, zero, suc, String, Bool, true, false, Option, none, some, List, [], ◌∷◌, ◌++◌, if◌then◌else◌,
  nat_keys, string_keys,
}

-- The serializer's functions, of the library protobuf: `M` are the messages and `B` the bytes.
pub record Serializer (M B : Type 0) : Type 0 where
  pub serialize : M → Option B
  pub type_name : M → String
  pub deserialize : B → String → Option M

pub record StreamDeliver (M : Type 0) : Type 0 where
  pub sender : Option Pid
  pub target : Pid
  pub msg : M

-- The messages `Message` and `Envelope` of remote/remote.proto.
pub record Message (B : Type 0) : Type 0 where
  pub content : B
  pub type_name_index : ℕ
  pub sender_index : ℕ
  pub target_index : ℕ

pub record Envelope (B : Type 0) : Type 0 where
  pub senders : List Pid
  pub targets : List Pid
  pub type_names : List String
  pub messages : List (Option (Message B))

-- The local variables of `Invoke` that its loop extends.
pub record Tables : Type 0 where
  pub type_lookup : Dict String ℕ
  pub type_names : List String
  pub sender_lookup : Dict ℕ ℕ
  pub senders : List Pid
  pub target_lookup : Dict ℕ ℕ
  pub targets : List Pid

unfoldable pub no_tables : Tables
no_tables = record {
  type_lookup = [];
  type_names = [];
  sender_lookup = [];
  senders = [];
  target_lookup = [];
  targets = [];
}

-- What `Stream.Send` answers.
pub data Sent : Type 0 where
  sent_ok sent_eof sent_failed : Sent

-- What the writer does to its connection, the engine and its inbox.
pub data WriterEffect (B : Type 0) : Type 0 where
  send_envelope : Envelope B → WriterEffect B
  close_conn set_deadline close_stream stop_inbox start_inbox connect : WriterEffect B
  send_unreachable : Pid → String → WriterEffect B
  broadcast_unreachable : String → WriterEffect B
  remove_registered : Pid → WriterEffect B

pub record StreamWriter : Type 0 where
  pub write_to_addr : String
  pub router_pid : Pid
  pub pid : Pid
  pub has_stream : Bool

unfoldable pub new_stream_writer : String → Pid → String → StreamWriter
unfolding new_pid
new_stream_writer engine_address rpid address = record {
  write_to_addr = address;
  router_pid = rpid;
  pid = new_pid engine_address (str_append "stream" (str_append "/" address));
  has_stream = false;
}

unfoldable pub shutdown : {B : Type 0} → StreamWriter → List (WriterEffect B)
shutdown s =
    send_unreachable s.router_pid s.write_to_addr
    ∷ broadcast_unreachable s.write_to_addr
    ∷ ((if s.has_stream then close_stream ∷ [] else [])
        ++ stop_inbox ∷ remove_registered s.pid ∷ [])

-- The retries of `init`: the first attempt that connects, out of those that are left.
unfoldable pub dial_loop : (ℕ → Bool) → ℕ → ℕ → Bool
dial_loop dial i zero = false
dial_loop dial i (suc left) =
    let rest = dial_loop dial (suc i) left in if dial i then true else rest

abbrev pub max_retries : ℕ
max_retries = 3

-- `dial` is whether the attempt of that number connects, `deadline` whether the deadline can be
-- set, and `opens` whether the remote stream opens.
unfoldable pub init :
    {B : Type 0} → (ℕ → Bool) → Bool → Bool → StreamWriter → StreamWriter × List (WriterEffect B)
unfolding dial_loop shutdown
init dial deadline opens s =
    if dial_loop dial 0 max_retries
    then (if deadline
        then (if opens
            then (record s { has_stream = true }, set_deadline ∷ connect ∷ [])
            else (s, set_deadline ∷ shutdown s))
        else (s, []))
    else (s, shutdown s)

unfoldable pub start :
    {B : Type 0} → (ℕ → Bool) → Bool → Bool → StreamWriter → StreamWriter × List (WriterEffect B)
unfolding init
start dial deadline opens s = let (s', es) = init dial deadline opens s in (s', start_inbox ∷ es)

module _ {M B : Type 0} (hash : String → ℕ) (z : Serializer M B) where
  -- One turn of the loop of `Invoke`. A message that is not serialized leaves nil in its place.
  unfoldable pub encode_one : Tables → StreamDeliver M → Tables × Option (Message B)
  unfolding lookup_pids lookup_type_name
  encode_one t d =
      let (type_id, tl, tn) = lookup_type_name t.type_lookup (z.type_name d.msg) t.type_names in
      let (sender_id, sl, ss) = lookup_pids hash t.sender_lookup d.sender t.senders in
      let (target_id, gl, gs) = lookup_pids hash t.target_lookup (some d.target) t.targets in
      let t' : Tables = record {
        type_lookup = tl;
        type_names = tn;
        sender_lookup = sl;
        senders = ss;
        target_lookup = gl;
        targets = gs;
      } in
      (
        t',
        elim (z.serialize d.msg) [
          | none ↦ none
          | some b ↦ some (record {
            content = b;
            type_name_index = type_id;
            sender_index = sender_id;
            target_index = target_id;
          })
        ],
      )

  unfoldable pub encode : Tables → List (StreamDeliver M) → Tables × List (Option (Message B))
  unfolding encode_one
  encode t [] = (t, [])
  encode t (d ∷ ds) = let (t1, m) = encode_one t d in let (t2, ms) = encode t1 ds in (t2, m ∷ ms)

  unfoldable pub envelope_of : List (StreamDeliver M) → Envelope B
  unfolding encode no_tables
  envelope_of ds =
      let (t, ms) = encode no_tables ds in
      record { senders = t.senders; targets = t.targets; type_names = t.type_names; messages = ms }

  -- `Invoke` of a writer that `init` has given a stream.
  unfoldable pub invoke : Sent → List (StreamDeliver M) → List (WriterEffect B)
  unfolding envelope_of
  invoke sent_ok ds = send_envelope (envelope_of ds) ∷ set_deadline ∷ []
  invoke sent_eof ds = send_envelope (envelope_of ds) ∷ close_conn ∷ []
  invoke sent_failed ds = send_envelope (envelope_of ds) ∷ set_deadline ∷ []
