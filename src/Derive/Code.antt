-- ===== src/Derive/Code.antt =====
-- The code that the derive macros generate, as data, and what Rust makes of it: the order of the
-- statements, the names that they refer to, the errors that `?` returns.
use Prim.Native.String.{String}
use text.Mathlib.Text.{◌==◌ as str_eq}
use borsh_rs.Prelude.{ℕ, suc, ◌==◌, Bool, false, List, [], ◌∷◌, if◌then◌else◌}
use borsh_rs.Io.{M, panicked, pure, ◌>>=◌, ◌>>◌}
use borsh_rs.Ser.{BorshSerialize}
use borsh_rs.De.{BorshDeserialize}
use package.borsh_rs.Derive.{Field, Fields, named, unnamed, unit}

-- The names that the macros make: a field's, the index of a tuple field, and those that
-- `format!("id{}", i)` and `format!("_id{}", i)` give. `underscored` is `_#field_name`, which are two
-- tokens, `_` and the name.
pub data Ident : Type 0 where
  name : String → Ident
  index id unused_id : ℕ → Ident
  underscored : String → Ident

abbrev pub same_ident : Ident → Ident → Bool
same_ident (name x) (name y) = str_eq x y
same_ident (index i) (index j) = i == j
same_ident (id i) (id j) = i == j
same_ident (unused_id i) (unused_id j) = i == j
same_ident _ _ = false

-- A field's initial value: `Default::default()`, or `BorshDeserialize::deserialize_reader(reader)?`.
pub data Init : Type 0 where
  default_value read_value : Init

-- The value of an item: one for each of its fields.
abbrev pub Values : {Ty : Type 0} → (Ty → Type 0) → List (Field Ty) → Type 0
Values El [] = Unit
Values El (field ∷ fields) = El field.ty × Values El fields

abbrev pub field_list : {Ty : Type 0} → Fields Ty → List (Field Ty)
field_list (named fields) = fields
field_list (unnamed fields) = fields
field_list unit = []

-- The names of the fields of `self`.
unfoldable pub indices : {Ty : Type 0} → ℕ → List (Field Ty) → List Ident
indices i [] = []
indices i (field ∷ fields) = index i ∷ indices (suc i) fields

unfoldable pub names : {Ty : Type 0} → List (Field Ty) → List Ident
names [] = []
names (field ∷ fields) = name field.ident ∷ names fields

abbrev pub self_fields : {Ty : Type 0} → Fields Ty → List Ident
self_fields (named fields) = names fields
self_fields (unnamed fields) = indices 0 fields
self_fields unit = []

module _ {W Ty : Type 0} {El : Ty → Type 0} (ser : (a : Ty) → BorshSerialize W (El a)) where
  -- `BorshSerialize::serialize(x, writer)?`, where the names in `scope` stand for the fields. A name
  -- that is not in scope does not compile.
  unfoldable pub serialize_name :
      Ident → List Ident → (fields : List (Field Ty)) → Values El fields → M W (Unit {0})
  serialize_name x (y ∷ scope) (field ∷ fields) (v, vs) =
      let other = serialize_name x scope fields vs in
      if same_ident x y then (ser field.ty).serialize v else other
  serialize_name x [] (field ∷ fields) v = λ w. (panicked, w)
  serialize_name x scope [] v = λ w. (panicked, w)

  unfoldable pub serialize_names :
      List Ident → List Ident → (fields : List (Field Ty)) → Values El fields → M W (Unit {0})
  unfolding serialize_name
  serialize_names [] scope fields v = pure tt
  serialize_names (x ∷ body) scope fields v = do
    serialize_name x scope fields v
    serialize_names body scope fields v

module _ {R Ty : Type 0} {El : Ty → Type 0} (de : (a : Ty) → BorshDeserialize R (El a))
    (default_of : (a : Ty) → El a) where
  -- The fields of a `Self { ... }` or `Self(...)`, in order.
  unfoldable pub run_inits : List Init → (fields : List (Field Ty)) → M R (Values El fields)
  run_inits [] [] = pure tt
  run_inits (default_value ∷ inits) (field ∷ fields) = do
    rest ← run_inits inits fields
    pure (default_of field.ty, rest)
  run_inits (read_value ∷ inits) (field ∷ fields) = do
    x ← (de field.ty).deserialize_reader
    rest ← run_inits inits fields
    pure (x, rest)
  run_inits (init ∷ inits) [] = λ s. (panicked, s)
  run_inits [] (field ∷ fields) = λ s. (panicked, s)
