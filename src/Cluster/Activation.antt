-- ===== src/Cluster/Activation.antt =====
-- cluster/activation.go and cluster/kind.go: what is activated, and where.
use distributed_framework.Cluster.Member.{Member}
use distributed_framework.Common.{ℕ, String, Option, some, List, get_elem?, nat_keys, string_keys}

pub record ActivationDetails : Type 0 where
  pub region : String
  pub members : List Member
  pub kind : String

abbrev pub SelectMemberFunc : Type 0
SelectMemberFunc = ActivationDetails → Option Member

-- `select_member` may be a nil function.
pub record ActivationConfig : Type 0 where
  pub id : String
  pub region : String
  pub select_member : Option SelectMemberFunc

-- `drawn` is what `rand.Intn(len)` gives; `none` is an index out of range.
unfoldable pub select_random_member : ℕ → SelectMemberFunc
select_random_member drawn details = get_elem? details.members drawn

-- `id` is the random text that the default carries.
unfoldable pub new_activation_config : String → ℕ → ActivationConfig
unfolding select_random_member
new_activation_config id drawn = record {
  id = id;
  region = "default";
  select_member = some (select_random_member drawn);
}

unfoldable pub with_select_member_func : ActivationConfig → SelectMemberFunc → ActivationConfig
with_select_member_func config fun = record config { select_member = some fun }

unfoldable pub with_id : ActivationConfig → String → ActivationConfig
with_id config id = record config { id = id }

unfoldable pub with_region : ActivationConfig → String → ActivationConfig
with_region config region = record config { region = region }

-- A kind and its producer, which is a value of the type `P`.
pub record Kind (P : Type 0) : Type 0 where
  pub name : String
  pub producer : P

unfoldable pub new_kind : {P : Type 0} → String → P → Kind P
new_kind name producer = record { name = name; producer = producer }
