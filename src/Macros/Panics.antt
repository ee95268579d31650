-- ===== src/Macros/Panics.antt =====
-- borsh-derive/src/lib.rs: when the entry points of the derive macros panic.
use Prim.Native.String.{String, ◌++◌ as str_append}
use borsh_rs.Prelude.{◌≡◌, ◌⊎◌, Bool, false, List, [], ◌∷◌, Option, none, some}
use borsh_rs.Derive.Enum.{ItemEnum}
use borsh_rs.Derive.Discriminants.{Variant}
use package.borsh_rs.Macros.{Syn}

-- An enum with a variant whose name behind that of the enum is no identifier.
abbrev pub NoIdentifier : {Ty : Type 0} → (String → Bool) → String → List (Variant Ty) → Type 0
NoIdentifier is_ident ident [] = ⊥
NoIdentifier is_ident ident (variant ∷ variants) =
    (is_ident (str_append ident variant.ident) ≡ false) ⊎ NoIdentifier is_ident ident variants

module _ {T Ty : Type 0} (syn : Syn T Ty) (crate_name : Option String) where
  abbrev pub NoItem : T → Type 0
  NoItem input = (syn.parse_struct input ≡ none) × (syn.parse_enum input ≡ none)

  -- The item is an enum with a variant whose name behind that of the enum is no identifier.
  abbrev pub Unnamable : (String → Bool) → Option (ItemEnum Ty) → Type 0
  Unnamable is_ident none = ⊥
  Unnamable is_ident (some item) =
      NoIdentifier is_ident (syn.schema_enum item).ident (syn.schema_enum item).variants
