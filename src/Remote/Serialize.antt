-- ===== src/Remote/Serialize.antt =====
-- remote/serialize.go and remote/protoreg.go: the two serializers, and the registry of types. A
-- message is a pointer to a struct of the type `X`; the functions of the library protobuf and of
-- the generated code are fields of `Proto` and `Vt`.
mod Tests
use distributed_framework.Common.Dict.{Dict, lookup, insert, lookup-insert}
use distributed_framework.Remote.Writer.{Serializer}
use distributed_framework.Common.{
  ◌>>=◌, ℕ, String, ◌≡◌, Bool, false, Option, none, some, if◌then◌else◌, ◌==◌, nat_keys,
  string_keys, refl, ap, ◌∙◌, ==_refl,
}

-- `FindMessageByName` with `New`, `proto.Marshal`, `proto.Unmarshal` and `proto.MessageName`.
pub record Proto (X B : Type 0) : Type 0 where
  pub find_message_by_name : String → Option X
  pub marshal : X → Option B
  pub unmarshal : B → X → Option X
  pub message_name : X → String

-- `ProtoSerializer`: each message that it reads is a new one.
unfoldable pub proto_serializer : {X B : Type 0} → Proto X B → Serializer X B
proto_serializer lib = record {
  serialize = lib.marshal;
  type_name = lib.message_name;
  deserialize = λ b tname. lib.find_message_by_name tname >>= λ fresh. lib.unmarshal b fresh;
}

-- `MarshalVT`, `UnmarshalVT`, which changes the struct and may fail, and `proto.MessageName`.
pub record Vt (X B : Type 0) : Type 0 where
  pub marshal_vt : X → Option B
  pub unmarshal_vt : B → X → X × Bool
  pub message_name : X → String

-- The structs by their pointers, and the global map `registry` from names to pointers.
pub record Memory (X : Type 0) : Type 0 where
  pub at : ℕ → X
  pub registry : Dict String ℕ

unfoldable pub store : {X : Type 0} → Memory X → ℕ → X → Memory X
store m v x = record m { at = λ w. if w == v then x else m.at w }

module _ {X B : Type 0} (lib : Vt X B) where
  unfoldable pub register_type : Memory X → ℕ → Memory X
  register_type m v = record m { registry = insert (lib.message_name (m.at v)) v m.registry }

  unfoldable pub registry_get_type : Memory X → String → Option ℕ
  registry_get_type m t = lookup t m.registry

  unfoldable pub vt_type_name : Memory X → ℕ → String
  vt_type_name m v = lib.message_name (m.at v)

  unfoldable pub vt_serialize : Memory X → ℕ → Option B
  vt_serialize m v = lib.marshal_vt (m.at v)

  -- `VTProtoSerializer.Deserialize`: the message, which is nil where no type has the name, and
  -- whether there is no error.
  unfoldable pub vt_deserialize : Memory X → B → String → Memory X × Option ℕ × Bool
  unfolding registry_get_type store
  vt_deserialize m b mtype = elim (registry_get_type m mtype) [
    | none ↦ (m, none, false)
    | some v ↦ let (x, ok) = lib.unmarshal_vt b (m.at v) in (store m v x, some v, ok)
  ]

  vt_deserialize_found :
      (m : Memory X) (b : B) (name : String) (v : ℕ)
      → lookup name m.registry ≡ some v
      → vt_deserialize m b name
        ≡ (store m v (lib.unmarshal_vt b (m.at v)).0, some v, (lib.unmarshal_vt b (m.at v)).1)
  unfolding vt_deserialize
  vt_deserialize_found m b name v h = rw (h, vt_deserialize) refl

  store-at : (m : Memory X) (v : ℕ) (x : X) → (store m v x).at v ≡ x
  unfolding store
  store-at m v x = rw (==_refl v) refl

  -- Two messages of a registered type that VTProtoSerializer reads are one struct, the registered
  -- one: reading the second changes the first, and merges into it what the second brings.
  pub one_struct_lem :
      (m : Memory X) (v : ℕ) (b b' : B)
      → (after : Memory X) × (last : Memory X) × (vt_deserialize
            (register_type m v)
            b
            (lib.message_name (m.at v))
          ≡ (after, some v, (lib.unmarshal_vt b (m.at v)).1))
        × (after.at v ≡ (lib.unmarshal_vt b (m.at v)).0)
        × (vt_deserialize after b' (lib.message_name (m.at v))
            ≡ (last, some v, (lib.unmarshal_vt b' (after.at v)).1))
        × (last.at v ≡ (lib.unmarshal_vt b' (lib.unmarshal_vt b (m.at v)).0).0)
  unfolding register_type store
  one_struct_lem m v b b' =
      let m1 : Memory X = register_type m v in
      let name : String = lib.message_name (m.at v) in
      let found : lookup name m1.registry ≡ some v =
        lookup-insert name name v m.registry ∙ rw (==_refl name) refl in
      let m2 : Memory X = store m1 v (lib.unmarshal_vt b (m.at v)).0 in
      let m3 : Memory X = store m2 v (lib.unmarshal_vt b' (m2.at v)).0 in
      (
        m2,
        m3,
        vt_deserialize_found m1 b name v found,
        store-at m1 v _,
        vt_deserialize_found m2 b' name v found,
        store-at m2 v _ ∙ ap (λ x. (lib.unmarshal_vt b' x).0) (store-at m1 v _),
      )
