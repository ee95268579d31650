-- ===== src/Derive/Enum/Reads.antt =====
-- borsh-derive-internal/src/enum_ser.rs and borsh-derive-internal/src/enum_de.rs: what the
-- generated code reads.
use Prim.Native.String.{String, ◌++◌ as str_append}
use borsh_rs.Prelude.{
  lt→ltb, true, ℕ, ◌≡◌, refl, ap, ◌∙◌, false, List, [], ◌∷◌, ◌++◌, Option, All, inl, inr, ◌==◌,
  ==_self,
}
use borsh_rs.Num.{decimal_u8}
use borsh_rs.Io.{Read, ok, err, custom, invalid_input}
use borsh_rs.Io.Laws.{IsRead, Reads, Reads-bind, Reads-map}
use borsh_rs.De.{BorshDeserialize}
use borsh_rs.De.Primitives.{deserialize_u8}
use borsh_rs.De.Laws.{IsDeserialize}
use borsh_rs.De.Reads.{deserialize_u8-Reads}
use package.borsh_rs.Derive.{Fields, named, unnamed, unit, code, contains_initialize_with}
use package.borsh_rs.Derive.Code.{Values, field_list, run_inits}
use package.borsh_rs.Derive.Kept.{
  not_skipped, encode_kept, KeptValid, restored, inits_of, run_inits-Reads,
}
use package.borsh_rs.Derive.Discriminants.{Token, Variant, lit, plus, this_discriminant, value}
use package.borsh_rs.Derive.Discriminants.Laws.{
  entries_from, evaluated, DistinctVariants, TightVariants, compiler_discriminants,
  compiler_discriminants-entries_from,
}
use package.borsh_rs.Derive.Struct.{run_init}
use package.borsh_rs.Derive.Struct.Laws.{named_inits-inits_of}
use package.borsh_rs.Derive.Enum.{ItemEnum, variant_inits, enum_de}
use package.borsh_rs.Derive.Enum.Run.{tags_compile, EnumValue, run_de_arms, run_enum_de}
use package.borsh_rs.Derive.Enum.Laws.{de_arms_of, de_arms-discriminant_map}
use package.borsh_rs.Derive.Enum.Spec.{
  encode_enum, EnumValid, enum_restored, TagsDistinct, TagsFit, tag_of, encode_fields,
}

module _ {R Ty : Type 0} ⦃rd : Read R⦄ {view : R → List ℕ} (law : IsRead rd view) {El : Ty → Type 0}
    {de : (a : Ty) → BorshDeserialize R (El a)} (default_of : (a : Ty) → El a)
    {Valid : (a : Ty) → El a → Type 0} {enc : (a : Ty) → El a → List ℕ}
    (h : (a : Ty) → IsDeserialize view (de a) (Valid a) (enc a)) where
  variant_inits-Reads :
      (fields : Fields Ty) (v : Values El (field_list fields))
      → KeptValid not_skipped Valid (field_list fields) v
      → Reads view
          (run_inits de default_of (variant_inits fields) (field_list fields))
          (restored not_skipped default_of (field_list fields) v)
          (encode_kept not_skipped enc (field_list fields) v)
  unfolding inits_of
  variant_inits-Reads (named fields) v valid =
      rw (named_inits-inits_of fields) (run_inits-Reads law default_of h not_skipped fields v valid)
  variant_inits-Reads (unnamed fields) v valid =
      rw (named_inits-inits_of fields) (run_inits-Reads law default_of h not_skipped fields v valid)
  variant_inits-Reads unit v valid = run_inits-Reads law default_of h not_skipped [] v tt

  tag_of-All :
      (P : ℕ → Type 0) (next : List Token) (variants : List (Variant Ty))
      (x : EnumValue El variants)
      → All (λ tag. P tag.1) (evaluated (entries_from next variants))
      → P (tag_of El (evaluated (entries_from next variants)) variants x)
  unfolding evaluated
  tag_of-All P next [] x p = absurd x
  tag_of-All P next (variant ∷ variants) (inl v) p = p.0
  tag_of-All P next (variant ∷ variants) (inr x) p =
      let this = this_discriminant next variant.discriminant in
      tag_of-All P (this ++ (plus ∷ lit 1 ∷ [])) variants x p.1

  tags_compile-TagsFit :
      (next : List Token) (variants : List (Variant Ty))
      → TagsFit (evaluated (entries_from next variants))
      → tags_compile (de_arms_of (entries_from next variants) variants) ≡ true
  unfolding tags_compile evaluated
  tags_compile-TagsFit next [] fit = refl
  tags_compile-TagsFit next (variant ∷ variants) fit =
      let this = this_discriminant next variant.discriminant in
      rw (lt→ltb (value this) 256 fit.0)
        (tags_compile-TagsFit (this ++ (plus ∷ lit 1 ∷ [])) variants fit.1)

  run_de_arms-Reads :
      (next : List Token) (variants : List (Variant Ty)) (x : EnumValue El variants)
      → TagsDistinct (evaluated (entries_from next variants))
      → EnumValid Valid variants x
      → Reads view
          (run_de_arms de default_of
            (tag_of El (evaluated (entries_from next variants)) variants x)
            (de_arms_of (entries_from next variants) variants)
            variants)
          (enum_restored default_of variants x)
          (encode_fields enc variants x)
  unfolding run_de_arms evaluated
  run_de_arms-Reads next [] x distinct valid = absurd x
  run_de_arms-Reads next (variant ∷ variants) (inl v) distinct valid =
      let this = this_discriminant next variant.discriminant in
      rw (==_self (value this), run_de_arms)
        (Reads-map _ _ (variant_inits-Reads variant.fields v valid) (λ s. refl))
  run_de_arms-Reads next (variant ∷ variants) (inr x) distinct valid =
      let this = this_discriminant next variant.discriminant in
      let after = this ++ (plus ∷ lit 1 ∷ []) in
      let other = tag_of-All (λ tag. (tag == value this) ≡ false) after variants x distinct.0 in
      rw (other, run_de_arms)
        (Reads-map _ _ (run_de_arms-Reads after variants x distinct.1 valid) (λ s. refl))

  encode_enum-tag :
      (next : List Token) (variants : List (Variant Ty)) (x : EnumValue El variants)
      → encode_enum enc (evaluated (entries_from next variants)) variants x
        ≡ tag_of El (evaluated (entries_from next variants)) variants x
          ∷ encode_fields enc variants x
  unfolding evaluated
  encode_enum-tag next [] x = absurd x
  encode_enum-tag next (variant ∷ variants) (inl v) = refl
  encode_enum-tag next (variant ∷ variants) (inr x) =
      encode_enum-tag (this_discriminant next variant.discriminant ++ (plus ∷ lit 1 ∷ [])) variants
        x

  -- Over any reader that keeps its contract and for field types that are read from their
  -- encodings, the implementation that `enum_de` generates for an enum whose variants have
  -- different names, and discriminants that are different bytes, each left out or given as a
  -- literal or a sum of literals, reads a value with valid kept fields back from an input
  -- that begins with its encoding, the discriminant that the compiler assigns and the kept
  -- fields, with the default for each skipped field, calls the method of `borsh_init` on it
  -- if there is one, and leaves the rest.
  pub enum_de-enum_restored :
      (input : ItemEnum Ty)
      (methods : String → EnumValue El input.variants → EnumValue El input.variants)
      (method : Option String) (x : EnumValue El input.variants) (s : R) (rest : List ℕ)
      → contains_initialize_with input.attrs ≡ code method
      → DistinctVariants input.variants
      → TightVariants input.variants
      → TagsFit (compiler_discriminants 0 input.variants)
      → TagsDistinct (compiler_discriminants 0 input.variants)
      → EnumValid Valid input.variants x
      → view s ≡ encode_enum enc (compiler_discriminants 0 input.variants) input.variants x ++ rest
      → (s' : R) × (run_enum_de de default_of input.variants methods (enum_de input) s
          ≡ (ok (run_init methods method (enum_restored default_of input.variants x)), s'))
        × (view s' ≡ rest)
  unfolding enum_de run_enum_de
  enum_de-enum_restored input methods method x s rest init distinct tight fit tags valid e =
      let entries = compiler_discriminants-entries_from input.variants tight in
      let bytes = rw entries at e in
      rw
        (
          init,
          de_arms-discriminant_map input.variants distinct,
          tags_compile-TagsFit (lit 0 ∷ []) input.variants (rw entries at fit),
        )
        ((Reads-bind deserialize_u8 _ (deserialize_u8-Reads law _) (
            Reads-map _ _
              (run_de_arms-Reads (lit 0 ∷ []) input.variants x (rw entries at tags) valid)
              (λ s. refl))).takes
          s rest (bytes ∙ ap (λ z. z ++ rest) (encode_enum-tag (lit 0 ∷ []) input.variants x)))

  run_de_arms-unexpected :
      (tag : ℕ) (next : List Token) (variants : List (Variant Ty)) (s : R)
      → All (λ other. (tag == other.1) ≡ false) (evaluated (entries_from next variants))
      → run_de_arms de default_of tag (de_arms_of (entries_from next variants) variants) variants s
        ≡ (err (custom invalid_input (str_append "Unexpected variant tag: " (decimal_u8 tag))), s)
  unfolding run_de_arms evaluated
  run_de_arms-unexpected tag next [] s unknown = refl
  run_de_arms-unexpected tag next (variant ∷ variants) s unknown =
      let after = this_discriminant next variant.discriminant ++ (plus ∷ lit 1 ∷ []) in
      rw (unknown.0, run_de_arms, run_de_arms-unexpected tag after variants s unknown.1) refl

  -- Over any reader that keeps its contract and for field types that are read from their
  -- encodings, the implementation that `enum_de` generates for an enum whose variants have
  -- different names, and discriminants that are bytes, each left out or given as a literal or
  -- a sum of literals, refuses a first byte that the compiler assigns to no variant with
  -- `Unexpected variant tag`, and has read that byte only.
  pub enum_de-unexpected_tag :
      (input : ItemEnum Ty)
      (methods : String → EnumValue El input.variants → EnumValue El input.variants)
      (method : Option String) (tag : ℕ) (s : R) (rest : List ℕ)
      → contains_initialize_with input.attrs ≡ code method
      → DistinctVariants input.variants
      → TightVariants input.variants
      → TagsFit (compiler_discriminants 0 input.variants)
      → All (λ other. (tag == other.1) ≡ false) (compiler_discriminants 0 input.variants)
      → view s ≡ tag ∷ rest
      → (s' : R) × (run_enum_de de default_of input.variants methods (enum_de input) s ≡ (
        err (custom invalid_input (str_append "Unexpected variant tag: " (decimal_u8 tag))),
        s',
      ))
        × (view s' ≡ rest)
  unfolding enum_de run_enum_de
  enum_de-unexpected_tag input methods method tag s rest init distinct tight fit unknown e =
      let entries = compiler_discriminants-entries_from input.variants tight in
      let (s1, p, q) = (deserialize_u8-Reads law tag).takes s rest e in
      (
        s1,
        rw
            (
              init,
              de_arms-discriminant_map input.variants distinct,
              tags_compile-TagsFit (lit 0 ∷ []) input.variants (rw entries at fit),
              p,
              run_de_arms-unexpected tag (lit 0 ∷ []) input.variants s1 (rw entries at unknown),
            )
            refl,
        q,
      )
