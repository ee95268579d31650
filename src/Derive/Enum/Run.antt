-- ===== src/Derive/Enum/Run.antt =====
-- borsh-derive-internal/src/enum_ser.rs and borsh-derive-internal/src/enum_de.rs: what the code that
-- the macros generate for an enum does.
use Prim.Native.String.{String, ◌++◌ as str_append}
use text.Mathlib.Text.{◌==◌ as str_eq}
use borsh_rs.Prelude.{
  ℕ, ◌==◌, ◌⊎◌, inl, inr, Bool, true, false, ◌&&◌, List, [], ◌∷◌, ltb, if◌then◌else◌,
}
use borsh_rs.Num.{decimal_u8}
use borsh_rs.Io.{
  M, Read, Write, pure, fail, panicked, custom, invalid_input, ◌>>=◌ as io_bind, ◌>>◌ as io_then,
}
use borsh_rs.Ser.{BorshSerialize}
use borsh_rs.Ser.Primitives.{serialize_u8}
use borsh_rs.De.{BorshDeserialize}
use borsh_rs.De.Primitives.{deserialize_u8}
use package.borsh_rs.Derive.{Expansion, code}
use package.borsh_rs.Derive.Code.{
  Ident, name, underscored, Values, field_list, serialize_names, run_inits,
}
use package.borsh_rs.Derive.Discriminants.{Variant, value}
use package.borsh_rs.Derive.Struct.{run_init}
use package.borsh_rs.Derive.Enum.{SerArm, EnumSer, DeArm, EnumDe}

-- The value of an enum: one of its variants, with values for its fields.
abbrev pub EnumValue : {Ty : Type 0} → (Ty → Type 0) → List (Variant Ty) → Type 0
EnumValue El [] = ⊥
EnumValue El (variant ∷ variants) = Values El (field_list variant.fields) ⊎ EnumValue El variants

-- A pattern with a stray `_` is no pattern. A name bound by a pattern hides the parameter `writer`
-- of the same name, which the arm then passes on as the writer. A discriminant beyond `u8` is no `u8`.
abbrev pub is_binding : Ident → Bool
is_binding (underscored x) = false
is_binding (name x) = if str_eq x "writer" then false else true
is_binding _ = true

abbrev pub all_bindings : List Ident → Bool
all_bindings [] = true
all_bindings (x ∷ header) = is_binding x && all_bindings header

unfoldable pub arms_compile : List SerArm → Bool
unfolding value
arms_compile [] = true
arms_compile (arm ∷ arms) =
    (all_bindings arm.variant_header && ltb (value arm.discriminant) 256) && arms_compile arms

unfoldable pub tags_compile : List DeArm → Bool
unfolding value
tags_compile [] = true
tags_compile (arm ∷ arms) = ltb (value arm.discriminant) 256 && tags_compile arms

-- What the generated implementations do. A match with no arm for a variant does not
-- compile. An enum without variants, on a reference to which no match compiles either, has no value
-- to write.
module _ {W Ty : Type 0} ⦃wr : Write W⦄ {El : Ty → Type 0}
    (ser : (a : Ty) → BorshSerialize W (El a)) where
  -- `let variant_idx: u8 = match self { ... }; writer.write_all(...)?; match self { ... } Ok(())`
  unfoldable pub run_ser_arms :
      (variant : Variant Ty) → Values El (field_list variant.fields) → List SerArm → M W (Unit {0})
  unfolding serialize_u8 serialize_names value
  run_ser_arms variant v [] = λ w. (panicked, w)
  run_ser_arms variant v (arm ∷ arms) =
      let later = run_ser_arms variant v arms in
      if str_eq arm.variant variant.ident
      then io_then (serialize_u8 (value arm.discriminant))
          (serialize_names ser arm.variant_body arm.variant_header (field_list variant.fields) v)
      else later

  unfoldable pub run_enum_arms :
      List SerArm → (variants : List (Variant Ty)) → EnumValue El variants → M W (Unit {0})
  unfolding run_ser_arms
  run_enum_arms arms [] x = absurd x
  run_enum_arms arms (variant ∷ variants) (inl v) = run_ser_arms variant v arms
  run_enum_arms arms (variant ∷ variants) (inr x) = run_enum_arms arms variants x

  abbrev pub run_enum_ser :
      (variants : List (Variant Ty))
      → Expansion (EnumSer Ty)
      → EnumValue El variants
      → M W (Unit {0})
  run_enum_ser variants (code impl) x =
      if arms_compile impl.arms then run_enum_arms impl.arms variants x else (λ w. (panicked, w))
  run_enum_ser variants _ x = λ w. (panicked, w)

module _ {R Ty : Type 0} ⦃rd : Read R⦄ {El : Ty → Type 0}
    (de : (a : Ty) → BorshDeserialize R (El a)) (default_of : (a : Ty) → El a) where
  -- The chain of tests, for arms in the order of the variants.
  unfoldable pub run_de_arms :
      ℕ → List DeArm → (variants : List (Variant Ty)) → M R (EnumValue El variants)
  unfolding run_inits value
  run_de_arms variant_tag (arm ∷ arms) (variant ∷ variants) =
      let later = io_bind (run_de_arms variant_tag arms variants) (λ x. pure (inr x)) in
      if variant_tag == value arm.discriminant
      then io_bind (run_inits de default_of arm.variant_header (field_list variant.fields))
          (λ v. pure (inl v))
      else later
  run_de_arms variant_tag [] variants =
      fail (custom invalid_input (str_append "Unexpected variant tag: " (decimal_u8 variant_tag)))
  run_de_arms variant_tag arms [] =
      fail (custom invalid_input (str_append "Unexpected variant tag: " (decimal_u8 variant_tag)))

  -- `EnumExt::deserialize_variant`
  abbrev pub run_deserialize_variant :
      (variants : List (Variant Ty))
      → (String → EnumValue El variants → EnumValue El variants)
      → Expansion (EnumDe Ty)
      → ℕ
      → M R (EnumValue El variants)
  run_deserialize_variant variants methods (code impl) variant_tag =
      if tags_compile impl.arms
      then io_bind (run_de_arms variant_tag impl.arms variants)
          (λ return_value. pure (run_init methods impl.init return_value))
      else (λ s. (panicked, s))
  run_deserialize_variant variants methods _ variant_tag = λ s. (panicked, s)

  -- `deserialize_reader`
  unfoldable pub run_enum_de :
      (variants : List (Variant Ty))
      → (String → EnumValue El variants → EnumValue El variants)
      → Expansion (EnumDe Ty)
      → M R (EnumValue El variants)
  unfolding deserialize_u8 run_de_arms
  run_enum_de variants methods impl =
      io_bind deserialize_u8 λ tag. run_deserialize_variant variants methods impl tag
