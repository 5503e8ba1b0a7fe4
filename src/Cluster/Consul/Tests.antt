-- ===== src/Cluster/Consul/Tests.antt =====
-- cluster/consul_provider.go: a node that registers, and updates of the watch.
use distributed_framework.Common.Dict.{insert}
use distributed_framework.Common.Decimal.{pos, negsuc, itoa, atoi, has_code}
use distributed_framework.Common.HostPort.{split_host_port, IsPlain}
use distributed_framework.Cluster.Client.{Cluster, member, start}
use distributed_framework.Cluster.Agent.{Agent, used_id}
use distributed_framework.Cluster.Agent.Members.{knows}
use distributed_framework.Cluster.MemberSet.Laws.{IsValid, new_member_set-IsValid}
use distributed_framework.Cluster.MemberSet.{new_member_set}
use Prim.Native.String.{◌++◌ as str_append}
use distributed_framework.Cluster.Consul.{
  ConsulProvider, Node, ConsulEffect, ServiceEntry, node_of, new_consul_provider, registration,
  member_of, watch_updates, new_consul_provider_config,
}
use distributed_framework.Cluster.Consul.Laws.{
  deliver, names_passing, registered_member_lem, IsEntryOf, watch_updates-exact,
}
use distributed_framework.Common.{
  ℕ, ◌-◌, ◌^◌, String, ◌≡◌, refl, Bool, true, false, none, some, List, [], ◌∷◌, if◌then◌else◌, ◌==◌,
  nat_keys, string_keys, sym, ap, Option, ◌++◌, arith,
}

itoa_8500 : itoa (pos 8500) ≡ "8500"
unfolding itoa
itoa_8500 = refl

atoi_strange :
    (atoi "-40" ≡ (negsuc 39, true)) × (atoi "40x" ≡ (pos 0, false)) × (atoi "" ≡ (pos 0, false))
unfolding atoi
atoi_strange = (refl, refl, refl)

-- Out of range before the character that is no digit.
atoi_large : atoi "99999999999999999999x" ≡ (pos (2 ^ 63 - 1), false)
unfolding atoi
atoi_large = refl

split_quoted : split_host_port "[::1]:40" ≡ some ("::1", "40")
unfolding split_host_port
split_quoted = refl

split_strange : (split_host_port "::1:40" ≡ none) × (split_host_port "local" ≡ none)
unfolding split_host_port
split_strange = (refl, refl)

itoa_4000 : itoa (pos 4000) ≡ "4000"
unfolding itoa
itoa_4000 = refl

host-IsPlain : IsPlain "127.0.0.1"
unfolding has_code
host-IsPlain = (refl, refl, refl)

abbrev cluster : Cluster ℕ
cluster = record {
  id = "A";
  region = "eu";
  engine_address = "127.0.0.1:4000";
  agent = none;
  provider = none;
  is_started = false;
  kinds = record { name = "player"; producer = 0 } ∷ [];
}

abbrev first : ℕ
first = 0

abbrev one_check : List ℕ
one_check = 1 ∷ []

-- Checks that pass are ones.
abbrev all_ones : List ℕ → Bool
all_ones [] = true
all_ones (c ∷ cs) = if c == 1 then all_ones cs else false

abbrev node : Node
node = record {
  id = "A";
  listen_addr = "127.0.0.1:4000";
  agent_pid = record { address = "127.0.0.1:4000"; id = "cluster/A" };
  kinds = "player" ∷ [];
}

started_node : node_of "127.0.0.1:4000" (start "1" "2" cluster).0 ≡ some node
unfolding node_of start used_id
started_node = refl

abbrev own_entry : ServiceEntry ℕ
own_entry = record {
  address = "127.0.0.1";
  port = pos 4000;
  metadata = ("name", "A") ∷ [];
  tags = "player" ∷ [];
  checks = one_check;
}

own_entry-IsEntryOf :
    IsEntryOf (registration (new_consul_provider new_consul_provider_config node first)) own_entry
unfolding registration new_consul_provider insert
own_entry-IsEntryOf = record {
  same_address = refl;
  same_port = refl;
  same_metadata = refl;
  same_tags = refl;
}

registered_member_lem_example : member_of own_entry ≡ record (member cluster) { region = "" }
registered_member_lem_example =
    registered_member_lem cluster "1" "2" "127.0.0.1:4000" "127.0.0.1" 4000
      new_consul_provider_config first node own_entry
      (ap (λ t. str_append "127.0.0.1" (str_append ":" t)) (sym itoa_4000)) host-IsPlain
      (omega arith) started_node own_entry-IsEntryOf

abbrev entry : String → ℕ → ServiceEntry ℕ
entry name check = record {
  address = "10.0.0.1";
  port = pos 4000;
  metadata = ("name", name) ∷ [];
  tags = [];
  checks = check ∷ [];
}

abbrev provider : ConsulProvider ℕ
provider = record {
  config = record { address = "127.0.0.1:8500" };
  cluster = record {
    id = "A";
    listen_addr = "127.0.0.1:4000";
    agent_pid = record { address = "127.0.0.1:4000"; id = "cluster/A" };
    kinds = [];
  };
  id = "";
  prev_index = 0;
  quit = false;
}

abbrev agent : Agent
agent = record {
  address = "127.0.0.1:4000";
  members = new_member_set [];
  activated = [];
  kinds = [];
  local_kinds = [];
}

-- An empty update, the same index again, and a change in which one of two nodes passes.
abbrev updates : List (ℕ × Option (List (ServiceEntry ℕ)))
updates = (1, some []) ∷ (1, some (entry "C" 1 ∷ [])) ∷ []

abbrev changed : List (ServiceEntry ℕ)
changed = entry "A" 1 ∷ entry "B" 0 ∷ []

abbrev sent : List ConsulEffect
sent = (watch_updates all_ones provider (updates ++ (2, some changed) ∷ [])).1

index_changed : ((watch_updates all_ones provider updates).0.prev_index == 2) ≡ false
unfolding watch_updates
index_changed = refl

watch_updates-exact_example :
    IsValid (deliver agent sent).members
    × (knows (deliver agent sent) "B" ≡ names_passing all_ones changed "B")
watch_updates-exact_example =
    watch_updates-exact all_ones provider updates 2 changed agent "B" (new_member_set-IsValid [])
      index_changed refl
