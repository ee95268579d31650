-- ===== src/Derive/Struct.antt =====
-- borsh-derive-internal/src/struct_ser.rs and borsh-derive-internal/src/struct_de.rs.
pub mod Laws
use Prim.Native.String.{String}
use borsh_rs.Prelude.{
  ℕ, zero, suc, Bool, true, false, List, [], ◌∷◌, ◌++◌, Option, none, some, length, replicate,
  if◌then◌else◌,
}
use borsh_rs.Io.{M, pure, panicked, ◌>>=◌ as io_bind}
use borsh_rs.Ser.{BorshSerialize}
use borsh_rs.De.{BorshDeserialize}
use package.borsh_rs.Derive.{
  Field, Fields, named, unnamed, unit, Predicate, bound, ItemStruct, Expansion, code, contains_skip,
  contains_initialize_with, ◌>>=◌,
}
use package.borsh_rs.Derive.Code.{
  Ident, name, index, Init, default_value, read_value, Values, field_list, self_fields,
  serialize_names, run_inits,
}

-- The generated `impl BorshSerialize`: its `where` clause, and the names that are serialized in turn
-- before `Ok(())`.
pub record StructSer (Ty : Type 0) : Type 0 where
  pub predicates : List (Predicate Ty)
  pub body : List Ident

-- The generated `impl BorshDeserialize`.
pub record StructDe (Ty : Type 0) : Type 0 where
  pub predicates : List (Predicate Ty)
  pub return_value : List Init
  pub init : Option String

module _ {Ty : Type 0} where
  -- The loop over named fields.
  unfoldable pub named_body : List (Field Ty) → List Ident
  unfolding contains_skip
  named_body [] = []
  named_body (field ∷ fields) =
      let rest = named_body fields in
      if contains_skip field.attrs then rest else name field.ident ∷ rest

  unfoldable pub named_predicates : List (Field Ty) → List (Predicate Ty)
  unfolding contains_skip
  named_predicates [] = []
  named_predicates (field ∷ fields) =
      let rest = named_predicates fields in
      if contains_skip field.attrs then rest else bound field.ty ∷ rest

  -- `for field_idx in 0..fields.unnamed.len()`
  unfoldable pub unnamed_body : ℕ → List (Field Ty) → List Ident
  unnamed_body field_idx [] = []
  unnamed_body field_idx (field ∷ fields) = index field_idx ∷ unnamed_body (suc field_idx) fields

  abbrev pub fields_body : Fields Ty → List Ident
  fields_body (named fields) = named_body fields
  fields_body (unnamed fields) = unnamed_body 0 fields
  fields_body unit = []

  abbrev pub fields_predicates : Fields Ty → List (Predicate Ty)
  fields_predicates (named fields) = named_predicates fields
  fields_predicates (unnamed fields) = []
  fields_predicates unit = []

  unfoldable pub struct_ser : ItemStruct Ty → Expansion (StructSer Ty)
  unfolding named_body named_predicates unnamed_body
  struct_ser input = code (record {
    predicates = input.predicates ++ fields_predicates input.fields;
    body = fields_body input.fields;
  })

  unfoldable pub named_inits : List (Field Ty) → List Init
  unfolding contains_skip
  named_inits [] = []
  named_inits (field ∷ fields) =
      (if contains_skip field.attrs then default_value else read_value) ∷ named_inits fields

  -- Every field of a tuple struct is read.
  unfoldable pub unnamed_inits : List (Field Ty) → List Init
  unnamed_inits [] = []
  unnamed_inits (field ∷ fields) = read_value ∷ unnamed_inits fields

  abbrev pub fields_inits : Fields Ty → List Init
  fields_inits (named fields) = named_inits fields
  fields_inits (unnamed fields) = unnamed_inits fields
  fields_inits unit = []

  unfoldable pub struct_de : ItemStruct Ty → Expansion (StructDe Ty)
  unfolding named_inits named_predicates unnamed_inits contains_initialize_with
  struct_de input = contains_initialize_with input.attrs >>= λ method. code (record {
    predicates = input.predicates ++ fields_predicates input.fields;
    return_value = fields_inits input.fields;
    init = method;
  })

-- `return_value.#method_ident();`, for what the methods of the type do.
abbrev pub run_init : {A : Type 0} → (String → A → A) → Option String → A → A
run_init methods none v = v
run_init methods (some method) v = methods method v

-- What the generated implementations do. Code that a macro did not generate does not run.
module _ {W Ty : Type 0} {El : Ty → Type 0} (ser : (a : Ty) → BorshSerialize W (El a)) where
  abbrev pub run_struct_ser :
      (fields : Fields Ty)
      → Expansion (StructSer Ty)
      → Values El (field_list fields)
      → M W (Unit {0})
  run_struct_ser fields (code impl) v =
      serialize_names ser impl.body (self_fields fields) (field_list fields) v
  run_struct_ser fields _ v = λ w. (panicked, w)

module _ {R Ty : Type 0} {El : Ty → Type 0} (de : (a : Ty) → BorshDeserialize R (El a))
    (default_of : (a : Ty) → El a) where
  abbrev pub run_struct_de :
      (fields : Fields Ty)
      → (String → Values El (field_list fields) → Values El (field_list fields))
      → Expansion (StructDe Ty)
      → M R (Values El (field_list fields))
  run_struct_de fields methods (code impl) =
      io_bind (run_inits de default_of impl.return_value (field_list fields))
        λ v. pure (run_init methods impl.init v)
  run_struct_de fields methods _ = λ s. (panicked, s)
