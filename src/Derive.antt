-- ===== src/Derive.antt =====
-- borsh-derive-internal/src: what the derive macros are given (the parts of `syn`'s items that they
-- look at), and borsh-derive-internal/src/attribute_helpers.rs. `Ty` is the type of Rust types, as
-- they stand in a field.
pub mod Discriminants
pub mod Code
pub mod Kept
pub mod Struct
pub mod Enum
pub mod Whole
pub mod Nested
use Prim.Native.String.{String}
use text.Mathlib.Text.{◌==◌}
use borsh_rs.Prelude.{Bool, true, false, List, [], ◌∷◌, Option, none, some, if◌then◌else◌}

-- An attribute, as `parse_meta` has it. `unparsed` stands for its error.
pub data NestedMeta : Type 0 where
  path : String → NestedMeta
  other : NestedMeta

pub data Attribute : Type 0 where
  path : String → Attribute
  list : String → List NestedMeta → Attribute
  name_value unparsed : Attribute

pub record Field (Ty : Type 0) : Type 0 where
  pub ident : String
  pub attrs : List Attribute
  pub ty : Ty

pub data Fields (Ty : Type 0) : Type 0 where
  named : List (Field Ty) → Fields Ty
  unnamed : List (Field Ty) → Fields Ty
  unit : Fields Ty

-- The predicates of the `where` clause that the item has come as texts.
pub data Predicate (Ty : Type 0) : Type 0 where
  given : String → Predicate Ty
  bound : Ty → Predicate Ty

pub record ItemStruct (Ty : Type 0) : Type 0 where
  pub attrs : List Attribute
  pub predicates : List (Predicate Ty)
  pub fields : Fields Ty

-- What a macro returns: code, an error for the compiler to report, or a panic.
pub data Expansion {ℓ} (A : Type ℓ) : Type ℓ where
  code : A → Expansion A
  error : String → Expansion A
  macro_panicked : Expansion A

unfoldable pub contains_skip : List Attribute → Bool
contains_skip [] = false
contains_skip (Attribute.path p ∷ attrs) = if p == "borsh_skip" then true else contains_skip attrs
contains_skip (_ ∷ attrs) = contains_skip attrs

-- The nested part of `borsh_init(...)`: `some` ends the loop.
abbrev pub init_method : List NestedMeta → Expansion (Option String)
init_method [] = error "borsh_init requires exactly one initialization method."
init_method (NestedMeta.path p ∷ []) = code (some p)
init_method (NestedMeta.other ∷ []) = code none
init_method (_ ∷ _ ∷ _) = error "borsh_init requires exactly one initialization method."

abbrev pub or_later :
    Expansion (Option String) → Expansion (Option String) → Expansion (Option String)
or_later (code (some p)) later = code (some p)
or_later (code none) later = later
or_later (error e) later = error e
or_later macro_panicked later = macro_panicked

unfoldable pub contains_initialize_with : List Attribute → Expansion (Option String)
contains_initialize_with [] = code none
contains_initialize_with (Attribute.list p nested ∷ attrs) =
    let later = contains_initialize_with attrs in
    if p == "borsh_init" then or_later (init_method nested) later else later
contains_initialize_with (_ ∷ attrs) = contains_initialize_with attrs

infixl 5 ◌>>=◌
abbrev pub ◌>>=◌ : {A B : Type 0} → Expansion A → (A → Expansion B) → Expansion B
code a >>= f = f a
error e >>= f = error e
macro_panicked >>= f = macro_panicked
