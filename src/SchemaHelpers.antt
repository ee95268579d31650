-- ===== src/SchemaHelpers.antt =====
-- borsh/src/schema_helpers.rs: values with the schema of their type in front. The derived
-- implementations for containers are the arguments `container_ser` and `container_de`.
pub mod Laws
use Prim.Native.String.{String}
use text.Mathlib.Text.{◌==◌ as str_eq}
use borsh_rs.Prelude.{
  ℕ, Bool, true, false, ◌&&◌, ◌==◌, List, [], ◌∷◌, ◌++◌, Option, some, none, length,
}
use borsh_rs.Io.{Result, ok, err, panicked, out_of_fuel, custom, invalid_data}
use borsh_rs.Io.Slice.{Slice, slice_read}
use borsh_rs.Ser.{BorshSerialize, try_to_vec}
use borsh_rs.De.{BorshDeserialize, try_from_slice}
use borsh_rs.De.Containers.{deserialize_tuple, tuple_de}
use borsh_rs.Schema.{
  Definition, Definitions, Definition-discrete, BorshSchema, BorshSchemaContainer, schema_container,
  lookup,
}

abbrev pub is_yes : {P : Type 0} → Dec P → Bool
is_yes (yes p) = true
is_yes (no p) = false

abbrev pub same_found : Option Definition → Definition → Bool
same_found (some found) definition = is_yes (Definition-discrete definition found)
same_found none definition = false

abbrev pub all_found : Definitions → Definitions → Bool
all_found definitions [] = true
all_found definitions ((name, definition) ∷ rest) =
    same_found (lookup name definitions) definition && all_found definitions rest

-- The derived `PartialEq`, with that of a `HashMap`: as many entries, and each is in the other.
unfoldable pub same_container : BorshSchemaContainer → BorshSchemaContainer → Bool
unfolding lookup Definition-discrete
same_container a b =
    str_eq a.declaration b.declaration
    && ((length a.definitions == length b.definitions) && all_found b.definitions a.definitions)

-- `?`
abbrev pub or_return : {A B : Type 0} → Result A → (A → Result B) → Result B
or_return (ok a) f = f a
or_return (err e) f = err e
or_return panicked f = panicked
or_return out_of_fuel f = out_of_fuel

abbrev pub schema_does_not_match : String
schema_does_not_match = "Borsh schema does not match"

-- `if T::schema_container() != schema { ... }`
abbrev pub matched : {T : Type 0} → Bool → T → Result T
matched true object = ok object
matched false object = err (custom invalid_data schema_does_not_match)

module _ {T : Type 0} (schema : BorshSchema) where
  -- `size` is the size of the pair in memory.
  unfoldable pub try_from_slice_with_schema :
      BorshDeserialize Slice BorshSchemaContainer → BorshDeserialize Slice T → ℕ → List ℕ → Result T
  unfolding try_from_slice deserialize_tuple schema_container same_container
  try_from_slice_with_schema container_de de size v =
      or_return (try_from_slice (tuple_de container_de de size) v) λ (read, object).
        or_return (schema_container schema) λ own. matched (same_container own read) object

  unfoldable pub try_to_vec_with_schema :
      BorshSerialize (List ℕ) BorshSchemaContainer → BorshSerialize (List ℕ) T → T → Result (List ℕ)
  unfolding try_to_vec schema_container
  try_to_vec_with_schema container_ser ser value = or_return (schema_container schema) λ own.
      or_return (try_to_vec container_ser own)
        λ res. or_return (try_to_vec ser value) λ more. ok (res ++ more)
