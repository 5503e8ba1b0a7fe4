-- ===== src/Remote/Serialize/Tests.antt =====
-- remote/serialize.go: two messages of one registered type. A struct is a number, and so are its
-- bytes; reading adds them, as protobuf merges into a struct.
use distributed_framework.Remote.Serialize.{
  Vt, Memory, register_type, vt_deserialize, one_struct_lem,
}
use distributed_framework.Common.{ℕ, ◌+◌, ◌≡◌, true, some, [], nat_keys, string_keys}

abbrev lib : Vt ℕ ℕ
lib = record {
  marshal_vt = λ x. some x;
  unmarshal_vt = λ b x. (x + b, true);
  message_name = λ x. "number";
}

abbrev memory : Memory ℕ
memory = record { at = λ v. 0; registry = [] }

abbrev pointer : ℕ
pointer = 40

one_struct_lem_example :
    (after : Memory ℕ) × (last : Memory ℕ) × (vt_deserialize lib
        (register_type lib memory pointer)
        5
        "number"
      ≡ (after, some pointer, true))
    × (after.at pointer ≡ 0 + 5)
    × (vt_deserialize lib after 6 "number" ≡ (last, some pointer, true))
    × (last.at pointer ≡ (0 + 5) + 6)
one_struct_lem_example = one_struct_lem lib memory pointer 5 6
