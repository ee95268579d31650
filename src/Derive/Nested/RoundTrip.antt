-- ===== src/Derive/Nested/RoundTrip.antt =====
-- borsh-derive-internal/src with borsh/src/ser/mod.rs and borsh/src/de/mod.rs: vectors of derived
-- types.
use borsh_rs.Prelude.{ℕ, ◌+◌, ◌^◌, ◌≤◌, ◌≡◌, ◌≢◌, List, none, All}
use borsh_rs.Io.{ok}
use borsh_rs.Io.Slice.{Slice, slice_read, vec_write}
use borsh_rs.Io.SliceLaws.{slice_read-IsRead, vec_write-IsWrite}
use borsh_rs.Encoding.{SeqValid}
use borsh_rs.Ser.{BorshSerialize, try_to_vec}
use borsh_rs.Ser.Containers.{vec_ser}
use borsh_rs.Ser.Laws.{IsSerialize}
use borsh_rs.Ser.Compose.{vec_ser-IsSerialize}
use borsh_rs.De.{Target, BorshDeserialize, try_from_slice}
use borsh_rs.De.Containers.{vec_de}
use borsh_rs.De.Laws.{IsDeserialize}
use borsh_rs.De.Compose.{vec_de-IsDeserialize}
use borsh_rs.RoundTrip.{try_from_slice-try_to_vec}
use package.borsh_rs.Derive.{ItemStruct, code, contains_initialize_with}
use package.borsh_rs.Derive.Code.{Values, field_list}
use package.borsh_rs.Derive.Kept.{KeptValid}
use package.borsh_rs.Derive.Struct.Laws.{kept, DistinctFields}
use package.borsh_rs.Derive.Discriminants.Laws.{
  DistinctVariants, TightVariants, compiler_discriminants,
}
use package.borsh_rs.Derive.Enum.{ItemEnum}
use package.borsh_rs.Derive.Enum.Run.{EnumValue}
use package.borsh_rs.Derive.Enum.Laws.{Bindable}
use package.borsh_rs.Derive.Enum.Spec.{TagsFit, EnumValid, TagsDistinct}
use package.borsh_rs.Derive.Whole.{NothingSkipped}
use package.borsh_rs.Derive.Nested.{
  derived_struct_ser, derived_enum_ser, derived_struct_de, derived_enum_de,
  derived_struct_ser-IsSerialize, derived_enum_ser-IsSerialize, derived_struct_de-IsDeserialize,
  derived_enum_de-IsDeserialize,
}

module _ {Ty : Type 0} {El : Ty → Type 0} {ser : (a : Ty) → BorshSerialize (List ℕ) (El a)}
    {de : (a : Ty) → BorshDeserialize Slice (El a)} (default_of : (a : Ty) → El a)
    {Valid : (a : Ty) → El a → Type 0} {enc : (a : Ty) → El a → List ℕ}
    (hs : (a : Ty) → IsSerialize vec_write (ser a) (Valid a) (enc a))
    (hd : (a : Ty) → IsDeserialize (λ s. s) (de a) (Valid a) (enc a)) (size : ℕ) (sized : size ≢ 0)
    (t : Target) (wide : 2 ^ 32 ≤ t.usize_max + 1) where
  -- For field types whose values are written as their encodings and read from them, and on a
  -- platform of 32 bits or more: a vector of values of a struct is written by `try_to_vec`
  -- with the implementation that `struct_ser` generates, and `try_from_slice` with the one
  -- that `struct_de` generates gives it back. The fields have different names, none has
  -- `borsh_skip`, the struct has no `borsh_init`, its size is not 0, and the vector is valid.
  pub try_from_slice-derived_struct_ser :
      (input : ItemStruct Ty) (xs : List (Values El (field_list input.fields)))
      → DistinctFields input.fields
      → contains_initialize_with input.attrs ≡ code none
      → NothingSkipped input.fields
      → SeqValid (KeptValid (kept input.fields) Valid (field_list input.fields)) xs
      → (bytes : List ℕ) × (try_to_vec (vec_ser (derived_struct_ser ser input)) xs ≡ ok bytes)
        × (try_from_slice (vec_de (derived_struct_de de default_of input size) t) bytes ≡ ok xs)
  try_from_slice-derived_struct_ser input xs d init whole =
      try_from_slice-try_to_vec _
        (vec_ser-IsSerialize vec_write-IsWrite
          (derived_struct_ser-IsSerialize vec_write-IsWrite hs input d))
        _
        (vec_de-IsDeserialize slice_read-IsRead
          (derived_struct_de-IsDeserialize slice_read-IsRead default_of hd size sized input init
            whole)
          t wide)
        xs

  -- For field types whose values are written as their encodings and read from them, and on a
  -- platform of 32 bits or more: a vector of values of an enum is written by `try_to_vec`
  -- with the implementation that `enum_ser` generates, and `try_from_slice` with the one that
  -- `enum_de` generates gives it back. The variants have different names, and discriminants
  -- that are different bytes, each left out or given as a literal or a sum of literals; the
  -- fields of each have different names, none is skipped and no named one is called `writer`;
  -- the enum has no `borsh_init`, its size is not 0, and the vector is valid.
  pub try_from_slice-derived_enum_ser :
      (input : ItemEnum Ty) (xs : List (EnumValue El input.variants))
      → DistinctVariants input.variants
      → TightVariants input.variants
      → TagsFit (compiler_discriminants 0 input.variants)
      → TagsDistinct (compiler_discriminants 0 input.variants)
      → All (λ variant. DistinctFields variant.fields) input.variants
      → contains_initialize_with input.attrs ≡ code none
      → All (λ variant. Bindable variant.fields) input.variants
      → All (λ variant. NothingSkipped variant.fields) input.variants
      → SeqValid (EnumValid Valid input.variants) xs
      → (bytes : List ℕ) × (try_to_vec (vec_ser (derived_enum_ser ser input)) xs ≡ ok bytes)
        × (try_from_slice (vec_de (derived_enum_de de default_of input size) t) bytes ≡ ok xs)
  try_from_slice-derived_enum_ser input xs distinct tight fit tags d init bindable whole =
      try_from_slice-try_to_vec _
        (vec_ser-IsSerialize vec_write-IsWrite
          (derived_enum_ser-IsSerialize vec_write-IsWrite hs input distinct tight bindable fit d))
        _
        (vec_de-IsDeserialize slice_read-IsRead
          (derived_enum_de-IsDeserialize slice_read-IsRead default_of hd size sized input init
            distinct tight fit tags whole)
          t wide)
        xs
