-- ===== src/Schema/Types.antt =====
-- The types that have an implementation of `BorshSchema` in borsh/src/schema.rs, as data, and the
-- implementation that the compiler picks.
use Prim.Native.String.{String}
use borsh_rs.Prelude.{ℕ, List, [], ◌∷◌}
use package.borsh_rs.Schema.{
  BorshSchema, unit_schema, renamed_primitive, array_schema, option_schema, result_schema,
  sequence_schema, map_schema, tuple_schema,
}

pub data Primitive : Type 0 where
  bool f32 f64 i8 i16 i32 i64 i128 u8 u16 u32 u64 u128 string str isize usize : Primitive

-- `stringify!($name)`
abbrev pub stringify : Primitive → String
stringify bool = "bool"
stringify f32 = "f32"
stringify f64 = "f64"
stringify i8 = "i8"
stringify i16 = "i16"
stringify i32 = "i32"
stringify i64 = "i64"
stringify i128 = "i128"
stringify u8 = "u8"
stringify u16 = "u16"
stringify u32 = "u32"
stringify u64 = "u64"
stringify u128 = "u128"
stringify string = "string"
stringify str = "string"
stringify isize = "i64"
stringify usize = "u64"

-- A `Box<T>` has the implementation of `T`.
mutual
  pub data SchemaType : Type 0 where
    primitive : Primitive → SchemaType
    unit phantom_data : SchemaType
    array : ℕ → SchemaType → SchemaType
    option vec slice hash_set btree_set : SchemaType → SchemaType
    result hash_map btree_map : SchemaType → SchemaType → SchemaType
    tuple : SchemaTypes → SchemaType

  pub data SchemaTypes : Type 0 where
    nil : SchemaTypes
    cons : SchemaType → SchemaTypes → SchemaTypes

unfoldable mutual
  unfolding array_schema option_schema result_schema sequence_schema map_schema tuple_schema

  pub schema_of : SchemaType → BorshSchema
  schema_of (primitive p) = renamed_primitive (stringify p)
  schema_of unit = unit_schema
  schema_of phantom_data = unit_schema
  schema_of (array n t) = array_schema n (schema_of t)
  schema_of (option t) = option_schema (schema_of t)
  schema_of (vec t) = sequence_schema "Vec" (schema_of t)
  schema_of (slice t) = sequence_schema "Vec" (schema_of t)
  schema_of (hash_set t) = sequence_schema "HashSet" (schema_of t)
  schema_of (btree_set t) = sequence_schema "BTreeSet" (schema_of t)
  schema_of (result t e) = result_schema (schema_of t) (schema_of e)
  schema_of (hash_map k v) = map_schema "HashMap" (schema_of k) (schema_of v)
  schema_of (btree_map k v) = map_schema "BTreeMap" (schema_of k) (schema_of v)
  schema_of (tuple ts) = tuple_schema (schemas_of ts)

  pub schemas_of : SchemaTypes → List BorshSchema
  schemas_of nil = []
  schemas_of (cons t ts) = schema_of t ∷ schemas_of ts
