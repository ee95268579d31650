-- ===== src/Schema.antt =====
-- borsh/src/schema.rs: what describes a type, and the implementations of `BorshSchema`. Adding
-- definitions is a step on the map of definitions; `assert_eq!` panics.
pub mod Types
pub mod Needed
pub mod Steps
pub mod Outcomes
pub mod Adds
pub mod Laws
pub mod Letters
pub mod Trees
pub mod Declared
pub mod Unambiguous
pub mod Closed
use Prim.Native.String.{String, ◌++◌ as str_append}
use text.Mathlib.Text.{◌==◌ as str_eq}
use text.Mathlib.TextEquality.{eq_iff}
use native.Mathlib.Decide.{ℕ_discrete}
use borsh_rs.Prelude.{
  ℕ, ◌%◌, ◌^◌, ◌≡◌, List, [], ◌∷◌, Option, some, none, if◌then◌else◌, map, Bool, refl, true, false,
}
use borsh_rs.Num.{decimal_digits}
use borsh_rs.Io.{M, Result, ok, err, panicked, out_of_fuel, pure, ◌>>◌}

abbrev pub Declaration : Type 0
Declaration = String

abbrev pub VariantName : Type 0
VariantName = String

abbrev pub FieldName : Type 0
FieldName = String

pub data Fields : Type 0 where
  named_fields : List (FieldName × Declaration) → Fields
  unnamed_fields : List Declaration → Fields
  empty : Fields

pub data Definition : Type 0 where
  array : (length : ℕ) (elements : Declaration) → Definition
  sequence : (elements : Declaration) → Definition
  tuple : (elements : List Declaration) → Definition
  enum : (variants : List (VariantName × Declaration)) → Definition
  struct : (fields : Fields) → Definition

pub different : (x y : String) → x ≡ y → str_eq x y ≡ false → ⊥
different x y same e = let same' = (eq_iff x y).1 same in cc

abbrev pub decided : (x y : String) (b : Bool) → str_eq x y ≡ b → Dec (x ≡ y)
decided x y true e = yes ((eq_iff x y).0 e)
decided x y false e = no (λ same. different x y same e)

unfoldable pub String-discrete : Discrete String
String-discrete x y = decided x y (str_eq x y) refl

-- The derived `PartialEq`.
unfoldable pub Definition-discrete : Discrete Definition
unfolding String-discrete
Definition-discrete = hlevel (ℕ_discrete, String-discrete)

-- The `HashMap`, its entries in some order.
abbrev pub Definitions : Type 0
Definitions = List (Declaration × Definition)

pub record BorshSchemaContainer : Type 0 where
  pub declaration : Declaration
  pub definitions : Definitions

unfoldable pub lookup : Declaration → Definitions → Option Definition
lookup name [] = none
lookup name ((key, definition) ∷ rest) =
    let later = lookup name rest in if str_eq name key then some definition else later

abbrev pub assert : {P : Type 0} → Dec P → M Definitions (Unit {0})
assert (yes p) = pure tt
assert (no p) = λ definitions. (panicked, definitions)

-- `match definitions.entry(declaration)`
abbrev pub at_entry : Option Definition → Declaration → Definition → M Definitions (Unit {0})
at_entry (some existing_def) declaration definition =
    assert (Definition-discrete existing_def definition)
at_entry none declaration definition =
    λ definitions. (ok tt, (declaration, definition) ∷ definitions)

unfoldable pub add_definition : Declaration → Definition → M Definitions (Unit {0})
unfolding lookup Definition-discrete
add_definition declaration definition definitions =
    at_entry (lookup declaration definitions) declaration definition definitions

pub record BorshSchema : Type 0 where
  pub add_definitions_recursively : M Definitions (Unit {0})
  pub declaration : Declaration

-- `let mut definitions = HashMap::new(); ...`
abbrev pub contained : Declaration → Result (Unit {0}) × Definitions → Result BorshSchemaContainer
contained declaration (ok _, definitions) =
    ok (record { declaration = declaration; definitions = definitions })
contained declaration (err e, definitions) = err e
contained declaration (panicked, definitions) = panicked
contained declaration (out_of_fuel, definitions) = out_of_fuel

unfoldable pub schema_container : BorshSchema → Result BorshSchemaContainer
schema_container s = contained s.declaration (s.add_definitions_recursively [])

-- `format!("{}<{}>", name, params)`
unfoldable pub applied : String → String → Declaration
applied name params = str_append name (str_append "<" (str_append params ">"))

-- `params.join(", ")`
unfoldable pub join : List Declaration → String
join [] = ""
join (x ∷ []) = x
join (x ∷ y ∷ xs) = let rest = join (y ∷ xs) in str_append x (str_append ", " rest)

-- `format!("{}", n)` of a `usize` of at most 64 bits, which has at most 20 digits.
unfoldable pub decimal_usize : ℕ → String
unfolding decimal_digits
decimal_usize n = decimal_digits 19 n

abbrev pub unit_schema : BorshSchema
unit_schema = record { add_definitions_recursively = pure tt; declaration = "nil" }

-- `impl_for_renamed_primitives!`, for the name.
abbrev pub renamed_primitive : String → BorshSchema
renamed_primitive name = record { add_definitions_recursively = pure tt; declaration = name }

-- `Self::add_definition(Self::declaration(), definition, definitions);`, and the rest.
abbrev pub define : Declaration → Definition → M Definitions (Unit {0}) → BorshSchema
define name definition rest = record {
  add_definitions_recursively = add_definition name definition >> rest;
  declaration = name;
}

unfoldable pub array_schema : ℕ → BorshSchema → BorshSchema
unfolding applied join decimal_usize add_definition
array_schema n t =
    define (applied "Array" (join (t.declaration ∷ decimal_usize n ∷ [])))
      (array (n % 2 ^ 32) t.declaration) t.add_definitions_recursively

unfoldable pub option_schema : BorshSchema → BorshSchema
unfolding applied add_definition
option_schema t =
    define (applied "Option" t.declaration)
      (enum (("None", unit_schema.declaration) ∷ ("Some", t.declaration) ∷ []))
      t.add_definitions_recursively

-- The definitions of the errors are not added.
unfoldable pub result_schema : BorshSchema → BorshSchema → BorshSchema
unfolding applied join add_definition
result_schema t e =
    define (applied "Result" (join (t.declaration ∷ e.declaration ∷ [])))
      (enum (("Ok", t.declaration) ∷ ("Err", e.declaration) ∷ [])) t.add_definitions_recursively

-- `Vec<T>`, `[T]`; `HashSet<T>`; `BTreeSet<T>`.
unfoldable pub sequence_schema : String → BorshSchema → BorshSchema
unfolding applied add_definition
sequence_schema name t =
    define (applied name t.declaration) (sequence t.declaration) t.add_definitions_recursively

abbrev pub declarations : List BorshSchema → List Declaration
declarations [] = []
declarations (t ∷ ts) = t.declaration ∷ declarations ts

abbrev pub add_all_definitions : List BorshSchema → M Definitions (Unit {0})
add_all_definitions [] = pure tt
add_all_definitions (t ∷ ts) = t.add_definitions_recursively >> add_all_definitions ts

unfoldable pub tuple_schema : List BorshSchema → BorshSchema
unfolding applied join add_definition
tuple_schema ts =
    define (applied "Tuple" (join (declarations ts))) (tuple (declarations ts))
      (add_all_definitions ts)

-- `HashMap<K, V>`; `BTreeMap<K, V>`.
unfoldable pub map_schema : String → BorshSchema → BorshSchema → BorshSchema
unfolding applied join tuple_schema add_definition
map_schema name k v =
    let entry = tuple_schema (k ∷ v ∷ []) in
    define (applied name (join (k.declaration ∷ v.declaration ∷ []))) (sequence entry.declaration)
      entry.add_definitions_recursively
