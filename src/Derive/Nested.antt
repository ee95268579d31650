-- ===== src/Derive/Nested.antt =====
-- borsh-derive-internal/src with borsh/src/ser/mod.rs and borsh/src/de/mod.rs: derived types as
-- types that other types are made of. A derived type has the provided hooks.
pub mod RoundTrip
use Prim.Native.String.{String}
use borsh_rs.Prelude.{
  ℕ, ◌+◌, ◌^◌, ◌≤◌, ◌≡◌, ◌≢◌, refl, sym, ap, Bool, true, false, List, [], ◌∷◌, ◌++◌, Option, none,
  All, inl, inr,
}
use borsh_rs.Io.{M, Read, Write, ok}
use borsh_rs.Io.Laws.{IsRead, IsWrite, Emits, Reads}
use borsh_rs.Io.Slice.{Slice, slice_read, vec_write}
use borsh_rs.Io.SliceLaws.{slice_read-IsRead, vec_write-IsWrite}
use borsh_rs.Encoding.{SeqValid, encode_seq}
use borsh_rs.Ser.{BorshSerialize, no_u8_slice, try_to_vec}
use borsh_rs.Ser.Containers.{vec_ser}
use borsh_rs.Ser.Laws.{IsSerialize}
use borsh_rs.Ser.Compose.{vec_ser-IsSerialize}
use borsh_rs.De.{Target, BorshDeserialize, try_from_slice}
use borsh_rs.De.Primitives.{plain_de}
use borsh_rs.De.Containers.{vec_de}
use borsh_rs.De.Laws.{IsDeserialize}
use borsh_rs.De.Reads.{plain-IsDeserialize}
use borsh_rs.De.Compose.{vec_de-IsDeserialize}
use borsh_rs.RoundTrip.{try_from_slice-try_to_vec}
use package.borsh_rs.Derive.{
  Field, Fields, named, unnamed, unit, ItemStruct, code, contains_skip, contains_initialize_with,
}
use package.borsh_rs.Derive.Code.{Values, field_list}
use package.borsh_rs.Derive.Kept.{encode_kept, KeptValid, restored, not_skipped}
use package.borsh_rs.Derive.Struct.{struct_ser, struct_de, run_struct_ser, run_struct_de}
use package.borsh_rs.Derive.Struct.Laws.{
  kept, DistinctFields, struct_ser-encode_kept, struct_de-restored,
}
use package.borsh_rs.Derive.Discriminants.{Variant, discriminant_map}
use package.borsh_rs.Derive.Discriminants.Laws.{
  DistinctVariants, TightVariants, compiler_discriminants,
}
use package.borsh_rs.Derive.Enum.{ItemEnum, enum_ser, enum_de}
use package.borsh_rs.Derive.Enum.Run.{EnumValue, run_enum_ser, run_enum_de}
use package.borsh_rs.Derive.Enum.Laws.{Bindable}
use package.borsh_rs.Derive.Enum.Spec.{TagsFit, encode_enum, EnumValid, enum_restored, TagsDistinct}
use package.borsh_rs.Derive.Enum.Writes.{enum_ser-encode_enum}
use package.borsh_rs.Derive.Enum.Reads.{enum_de-enum_restored}
use package.borsh_rs.Derive.Whole.{
  NothingSkipped, restored-kept, not_skipped_all, kept_all, enum_restored-kept,
}

-- The derived implementations.
abbrev pub derived_enum_ser :
    {W Ty : Type 0} ⦃wr : Write W⦄ {El : Ty → Type 0}
    → ((a : Ty) → BorshSerialize W (El a))
    → (input : ItemEnum Ty) → BorshSerialize W (EnumValue El input.variants)
derived_enum_ser ser input = record {
  serialize = run_enum_ser ser input.variants (enum_ser input);
  u8_slice = no_u8_slice;
}

abbrev pub derived_struct_ser :
    {W Ty : Type 0} {El : Ty → Type 0}
    → ((a : Ty) → BorshSerialize W (El a))
    → (input : ItemStruct Ty) → BorshSerialize W (Values El (field_list input.fields))
derived_struct_ser ser input = record {
  serialize = run_struct_ser ser input.fields (struct_ser input);
  u8_slice = no_u8_slice;
}

module _ {W Ty : Type 0} ⦃wr : Write W⦄ (law : IsWrite wr) {El : Ty → Type 0}
    {ser : (a : Ty) → BorshSerialize W (El a)} {Valid : (a : Ty) → El a → Type 0}
    {enc : (a : Ty) → El a → List ℕ} (h : (a : Ty) → IsSerialize wr (ser a) (Valid a) (enc a)) where
  pub derived_struct_ser-IsSerialize :
      (input : ItemStruct Ty)
      → DistinctFields input.fields
      → IsSerialize wr
          (derived_struct_ser ser input)
          (KeptValid (kept input.fields) Valid (field_list input.fields))
          (encode_kept (kept input.fields) enc (field_list input.fields))
  derived_struct_ser-IsSerialize input d = record {
    emits = λ v valid. record { writes = λ w. struct_ser-encode_kept law h input v w d valid };
    slices = λ xs. inl refl;
  }

  pub derived_enum_ser-IsSerialize :
      (input : ItemEnum Ty)
      → DistinctVariants input.variants
      → TightVariants input.variants
      → All (λ variant. Bindable variant.fields) input.variants
      → TagsFit (compiler_discriminants 0 input.variants)
      → All (λ variant. DistinctFields variant.fields) input.variants
      → IsSerialize wr
          (derived_enum_ser ser input)
          (EnumValid Valid input.variants)
          (encode_enum enc (compiler_discriminants 0 input.variants) input.variants)
  derived_enum_ser-IsSerialize input distinct tight bindable fit d = record {
    emits = λ x valid. record {
      writes = λ w. enum_ser-encode_enum law h input x w distinct tight bindable fit d valid;
    };
    slices = λ xs. inl refl;
  }

-- Without `borsh_init`.
abbrev pub derived_enum_de :
    {R Ty : Type 0} ⦃rd : Read R⦄ {El : Ty → Type 0}
    → ((a : Ty) → BorshDeserialize R (El a))
    → ((a : Ty) → El a)
    → (input : ItemEnum Ty) → ℕ
    → BorshDeserialize R (EnumValue El input.variants)
derived_enum_de de default_of input size =
    plain_de (run_enum_de de default_of input.variants (λ method x. x) (enum_de input)) size

abbrev pub derived_struct_de :
    {R Ty : Type 0} ⦃rd : Read R⦄ {El : Ty → Type 0}
    → ((a : Ty) → BorshDeserialize R (El a))
    → ((a : Ty) → El a)
    → (input : ItemStruct Ty) → ℕ
    → BorshDeserialize R (Values El (field_list input.fields))
derived_struct_de de default_of input size =
    plain_de (run_struct_de de default_of input.fields (λ method v. v) (struct_de input)) size

module _ {R Ty : Type 0} ⦃rd : Read R⦄ {view : R → List ℕ} (law : IsRead rd view) {El : Ty → Type 0}
    {de : (a : Ty) → BorshDeserialize R (El a)} (default_of : (a : Ty) → El a)
    {Valid : (a : Ty) → El a → Type 0} {enc : (a : Ty) → El a → List ℕ}
    (h : (a : Ty) → IsDeserialize view (de a) (Valid a) (enc a)) (size : ℕ) (sized : size ≢ 0) where
  pub derived_struct_de-IsDeserialize :
      (input : ItemStruct Ty)
      → contains_initialize_with input.attrs ≡ code none
      → NothingSkipped input.fields
      → IsDeserialize view
          (derived_struct_de de default_of input size)
          (KeptValid (kept input.fields) Valid (field_list input.fields))
          (encode_kept (kept input.fields) enc (field_list input.fields))
  derived_struct_de-IsDeserialize input init whole =
      plain-IsDeserialize law _ size sized (λ v valid. record {
        takes = λ s rest e.
            let same =
              restored-kept (kept input.fields) default_of (field_list input.fields) v
                (kept_all input.fields whole) in
            let (s', run, left) =
              struct_de-restored law default_of h input (λ method x. x) none v s rest init valid
                e in
            (s', rw same at run, left);
      })

  pub derived_enum_de-IsDeserialize :
      (input : ItemEnum Ty)
      → contains_initialize_with input.attrs ≡ code none
      → DistinctVariants input.variants
      → TightVariants input.variants
      → TagsFit (compiler_discriminants 0 input.variants)
      → TagsDistinct (compiler_discriminants 0 input.variants)
      → All (λ variant. NothingSkipped variant.fields) input.variants
      → IsDeserialize view
          (derived_enum_de de default_of input size)
          (EnumValid Valid input.variants)
          (encode_enum enc (compiler_discriminants 0 input.variants) input.variants)
  derived_enum_de-IsDeserialize input init distinct tight fit tags whole =
      plain-IsDeserialize law _ size sized (λ x valid. record {
        takes = λ s rest e.
            let same = enum_restored-kept default_of input.variants x whole in
            let (s', run, left) =
              enum_de-enum_restored law default_of h input (λ method y. y) none x s rest init
                distinct tight fit tags valid e in
            (s', rw same at run, left);
      })
