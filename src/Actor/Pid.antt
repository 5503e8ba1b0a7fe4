-- ===== src/Actor/Pid.antt =====
-- actor/pid.go: process identifiers.
use Prim.Native.String.{◌++◌, String}
use distributed_framework.Common.{
  ℕ, ◌≡◌, ◌↔◌, Bool, true, ◌&&◌, arith, Comparable, ◌==◌, ==_iff, nat_keys, string_keys,
}

-- `PID` of actor/actor.proto, without the fields that protobuf adds.
pub record Pid : Type 0 where
  pub address : String
  pub id : String

abbrev pub pid_separator : String
pid_separator = "/"

unfoldable pub new_pid : String → String → Pid
new_pid address id = record { address = address; id = id }

unfoldable pub to_string : Pid → String
to_string p = p.address ++ pid_separator ++ p.id

unfoldable pub equals : Pid → Pid → Bool
equals p other = p.address == other.address && p.id == other.id

unfoldable pub child : Pid → String → Pid
unfolding new_pid
child p id = new_pid p.address (p.id ++ pid_separator ++ id)

-- The text that `LookupKey` hashes: address and id with nothing between them.
unfoldable pub key_text : Pid → String
key_text p = p.address ++ p.id

-- `LookupKey`, over the hash function of the library xxh3.
unfoldable pub lookup_key : (String → ℕ) → Pid → ℕ
unfolding key_text
lookup_key hash p = hash (key_text p)

-- `Equals` decides equality of the two fields.
pub equals_iff : (p q : Pid) → (equals p q ≡ true) ↔ (p ≡ q)
unfolding equals
equals_iff p q = ground (arith, ==_iff p.address q.address, ==_iff p.id q.id)

-- Go's `==` on a struct of the two fields, such as `pidKey`.
instance abbrev pub pid_keys : Comparable Pid
pid_keys = record { same = equals; same_iff = equals_iff }
