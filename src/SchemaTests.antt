-- ===== src/SchemaTests.antt =====
-- The theorems on schemas at `Option<Vec<u8>>`.
use borsh_rs.Prelude.{◌≡◌, refl, [], ◌∷◌, All, arith}
use mathlib.Core.List.{Mem}
use borsh_rs.Io.{ok, panicked}
use borsh_rs.Schema.{
  Definitions, BorshSchemaContainer, enum, sequence, schema_container, add_definition,
}
use borsh_rs.Schema.Types.{SchemaType, primitive, u8, option, vec, result, schema_of}
use borsh_rs.Schema.Needed.{needed, name_of, Defines}
use borsh_rs.Schema.Steps.{Extends, UniqueNames}
use borsh_rs.Schema.Laws.{schema_container-Defines, add_definitions_recursively-Extends}
use borsh_rs.Schema.Declared.{IsSized}
use borsh_rs.Schema.Unambiguous.{schema_container-returns}
use borsh_rs.Schema.Closed.{Described, Closed, PlainErrors, schema_container-Closed}

abbrev bytes : SchemaType
bytes = option (vec (primitive u8))

abbrev bytes_container : BorshSchemaContainer
bytes_container = record {
  declaration = "Option<Vec<u8>>";
  definitions =
      ("Vec<u8>", sequence "u8")
      ∷ ("Option<Vec<u8>>", enum (("None", "nil") ∷ ("Some", "Vec<u8>") ∷ []))
      ∷ [];
}

bytes-run : schema_container (schema_of bytes) ≡ ok bytes_container
unfolding schema_container schema_of add_definition
bytes-run = refl

-- A second definition of a name panics, unless it is the first one again.
redefined :
    add_definition "A" (sequence "u8") (("A", sequence "u16") ∷ [])
    ≡ (panicked, ("A", sequence "u16") ∷ [])
unfolding add_definition
redefined = refl

defined_again :
    add_definition "A" (sequence "u8") (("A", sequence "u8") ∷ [])
    ≡ (ok tt, ("A", sequence "u8") ∷ [])
unfolding add_definition
defined_again = refl

-- The container of a result has no definition of the type of its errors.
error_type-undefined :
    schema_container (schema_of (result (primitive u8) (vec (primitive u8))))
    ≡ ok (record {
      declaration = "Result<u8, Vec<u8>>";
      definitions = ("Result<u8, Vec<u8>>", enum (("Ok", "u8") ∷ ("Err", "Vec<u8>") ∷ [])) ∷ [];
    })
unfolding schema_container schema_of add_definition
error_type-undefined = refl

schema_container-Defines_example :
    (bytes_container.declaration ≡ name_of bytes)
    × UniqueNames bytes_container.definitions
    × Defines bytes_container.definitions (needed bytes)
    × All (λ entry. Mem entry (needed bytes)) bytes_container.definitions
schema_container-Defines_example = schema_container-Defines bytes bytes_container bytes-run

add_definitions_recursively-Extends_example :
    Extends
      (("Vec<u8>", sequence "u8") ∷ [])
      ((schema_of bytes).add_definitions_recursively (("Vec<u8>", sequence "u8") ∷ [])).1
add_definitions_recursively-Extends_example =
    add_definitions_recursively-Extends bytes (("Vec<u8>", sequence "u8") ∷ [])

schema_container-Closed_example :
    Described bytes_container.definitions bytes_container.declaration
    × All (Closed bytes_container.definitions) bytes_container.definitions
unfolding PlainErrors
schema_container-Closed_example = schema_container-Closed bytes bytes_container tt bytes-run

abbrev table : SchemaType
table = SchemaType.array 4 (result (vec (primitive u8)) (option (primitive u8)))

schema_container-returns_example :
    (definitions : Definitions) × (schema_container (schema_of table)
      ≡ ok (record {
        declaration = "Array<Result<Vec<u8>, Option<u8>>, 4>";
        definitions = definitions;
      }))
unfolding IsSized name_of
schema_container-returns_example = schema_container-returns table (omega arith, (tt, tt))
