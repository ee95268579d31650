-- ===== src/Derive/Enum/Writes.antt =====
-- borsh-derive-internal/src/enum_ser.rs and borsh-derive-internal/src/enum_de.rs: what the
-- generated code writes.
use text.Mathlib.Text.{◌==◌ as str_eq}
use text.Mathlib.TextPositions.{eq_refl}
use borsh_rs.Prelude.{ℕ, ◌≡◌, refl, false, List, [], ◌∷◌, ◌++◌, All, inl, inr}
use borsh_rs.Io.{Write}
use borsh_rs.Io.Laws.{IsWrite, Emits, Emits-then}
use borsh_rs.Ser.{BorshSerialize}
use borsh_rs.Ser.Primitives.{serialize_u8}
use borsh_rs.Ser.Laws.{IsSerialize}
use package.borsh_rs.Derive.{Fields, named, unnamed, unit}
use package.borsh_rs.Derive.Code.{Values, field_list, names, serialize_names}
use package.borsh_rs.Derive.Kept.{
  not_skipped, encode_kept, KeptValid, names_of, serialize_names-Emits,
}
use package.borsh_rs.Derive.Discriminants.{Token, Variant, lit, plus, this_discriminant}
use package.borsh_rs.Derive.Discriminants.Laws.{
  entries_from, evaluated, DistinctVariants, TightVariants, compiler_discriminants,
  compiler_discriminants-entries_from,
}
use package.borsh_rs.Derive.Struct.Laws.{DistinctFields, named_body-names_of, names-InScope}
use package.borsh_rs.Derive.Enum.{
  ItemEnum, SerArm, variant_header, variant_body, enum_ser, unnamed_header,
}
use package.borsh_rs.Derive.Enum.Run.{EnumValue, run_ser_arms, run_enum_arms, run_enum_ser}
use package.borsh_rs.Derive.Enum.Laws.{
  Bindable, names_differ, ser_arms_of, ser_arms-discriminant_map, named_header-names,
  unnamed_ids-names_of, unnamed_header-Distinct, unnamed_header-InScope,
}
use package.borsh_rs.Derive.Enum.Patterns.{arms_compile-Bindable}
use package.borsh_rs.Derive.Enum.Spec.{encode_enum, EnumValid, TagsFit}

module _ {W Ty : Type 0} ⦃wr : Write W⦄ (law : IsWrite wr) {El : Ty → Type 0}
    {ser : (a : Ty) → BorshSerialize W (El a)} {Valid : (a : Ty) → El a → Type 0}
    {enc : (a : Ty) → El a → List ℕ} (h : (a : Ty) → IsSerialize wr (ser a) (Valid a) (enc a)) where
  variant_body-Emits :
      (fields : Fields Ty) (v : Values El (field_list fields))
      → Bindable fields
      → DistinctFields fields
      → KeptValid not_skipped Valid (field_list fields) v
      → Emits wr
          (serialize_names ser (variant_body fields) (variant_header fields) (field_list fields) v)
          (encode_kept not_skipped enc (field_list fields) v)
  unfolding names_of
  variant_body-Emits (named fields) v bindable d valid =
      rw (named_header-names fields bindable, named_body-names_of fields)
        (serialize_names-Emits law h not_skipped (names fields) fields v d (names-InScope fields)
          valid)
  variant_body-Emits (unnamed fields) v bindable d valid = rw (unnamed_ids-names_of 0 fields) (
      serialize_names-Emits law h not_skipped (unnamed_header 0 fields) fields v
        (unnamed_header-Distinct 0 fields) (unnamed_header-InScope 0 fields) valid)
  variant_body-Emits unit v bindable d valid =
      serialize_names-Emits law h not_skipped [] [] v tt tt tt

  -- An arm in front for a variant that the value is not of.
  run_enum_arms-skip :
      (arm : SerArm) (arms : List SerArm) (variants : List (Variant Ty)) (x : EnumValue El variants)
      → All (λ later. str_eq arm.variant later.ident ≡ false) variants
      → run_enum_arms ser (arm ∷ arms) variants x ≡ run_enum_arms ser arms variants x
  unfolding run_enum_arms
  run_enum_arms-skip arm arms [] x other = absurd x
  run_enum_arms-skip arm arms (variant ∷ variants) (inl v) other = rw (other.0, run_ser_arms) refl
  run_enum_arms-skip arm arms (variant ∷ variants) (inr x) other =
      run_enum_arms-skip arm arms variants x other.1

  run_enum_arms-Emits :
      (next : List Token) (variants : List (Variant Ty)) (x : EnumValue El variants)
      → DistinctVariants variants
      → All (λ variant. Bindable variant.fields) variants
      → All (λ variant. DistinctFields variant.fields) variants
      → EnumValid Valid variants x
      → Emits wr
          (run_enum_arms ser (ser_arms_of (entries_from next variants) variants) variants x)
          (encode_enum enc (evaluated (entries_from next variants)) variants x)
  unfolding run_enum_arms evaluated serialize_u8
  run_enum_arms-Emits next [] x distinct bindable d valid = absurd x
  run_enum_arms-Emits next (variant ∷ variants) (inl v) distinct bindable d valid =
      rw (eq_refl variant.ident, run_ser_arms)
        (Emits-then law (serialize_u8 _) _ (record { writes = λ w. refl })
          (variant_body-Emits variant.fields v bindable.0 d.0 valid))
  run_enum_arms-Emits next (variant ∷ variants) (inr x) distinct bindable d valid =
      let this = this_discriminant next variant.discriminant in
      let after = this ++ (plus ∷ lit 1 ∷ []) in
      rw
        (run_enum_arms-skip
          (record {
            variant = variant.ident;
            discriminant = this;
            variant_header = variant_header variant.fields;
            variant_body = variant_body variant.fields;
          })
          (ser_arms_of (entries_from after variants) variants) variants x
          (names_differ variant.ident variants distinct.0))
        (run_enum_arms-Emits after variants x distinct.1 bindable.1 d.1 valid)

  -- For a writer that takes a buffer as it takes its parts, and field types whose values are
  -- written as their encodings, the implementation that `enum_ser` generates for an enum
  -- whose variants have different names, and discriminants that are bytes, each left out or
  -- given as a literal or a sum of literals, none with a named field that is skipped or
  -- called `writer` nor two fields of one name, writes a value with valid kept fields as the
  -- discriminant that the compiler assigns to the variant and the encodings of the fields
  -- that are not skipped, in order, in any state of the writer.
  pub enum_ser-encode_enum :
      (input : ItemEnum Ty) (x : EnumValue El input.variants) (w : W)
      → DistinctVariants input.variants
      → TightVariants input.variants
      → All (λ variant. Bindable variant.fields) input.variants
      → TagsFit (compiler_discriminants 0 input.variants)
      → All (λ variant. DistinctFields variant.fields) input.variants
      → EnumValid Valid input.variants x
      → run_enum_ser ser input.variants (enum_ser input) x w
        ≡ wr.write_all
            (encode_enum enc (compiler_discriminants 0 input.variants) input.variants x)
            w
  unfolding enum_ser
  enum_ser-encode_enum input x w distinct tight bindable fit d valid =
      let tags = compiler_discriminants-entries_from input.variants tight in
      rw
        (
          tags,
          ser_arms-discriminant_map input.variants distinct,
          arms_compile-Bindable (lit 0 ∷ []) input.variants bindable (rw tags at fit),
        )
        ((run_enum_arms-Emits (lit 0 ∷ []) input.variants x distinct bindable d valid).writes w)
