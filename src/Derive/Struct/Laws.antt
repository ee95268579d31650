-- ===== src/Derive/Struct/Laws.antt =====
-- borsh-derive-internal/src/struct_ser.rs and borsh-derive-internal/src/struct_de.rs: what the code
-- that the macros generate for a struct writes and reads.
use Prim.Native.String.{String}
use text.Mathlib.TextPositions.{eq_refl}
use borsh_rs.Prelude.{
  ℕ, suc, ◌<◌, ◌≡◌, refl, ap, Bool, false, List, [], ◌∷◌, ◌++◌, Option, All, arith, Bool-cases, inl,
  inr, ==_self,
}
use borsh_rs.Io.{Read, Write, ok}
use borsh_rs.Io.Laws.{IsRead, IsWrite, Reads-map}
use borsh_rs.Ser.{BorshSerialize}
use borsh_rs.Ser.Laws.{IsSerialize}
use borsh_rs.De.{BorshDeserialize}
use borsh_rs.De.Laws.{IsDeserialize}
use package.borsh_rs.Derive.{
  Field, Fields, named, unnamed, unit, ItemStruct, code, contains_skip, contains_initialize_with,
}
use package.borsh_rs.Derive.Code.{
  name, index, default_value, read_value, same_ident, Values, field_list, names, indices,
}
use package.borsh_rs.Derive.Kept.{
  not_skipped, every_field, encode_kept, KeptValid, restored, inits_of, names_of, Distinct, InScope,
  serialize_names-Emits, run_inits-Reads,
}
use package.borsh_rs.Derive.Struct.{
  named_body, unnamed_body, fields_body, named_inits, unnamed_inits, fields_inits, struct_ser,
  struct_de, run_init, run_struct_ser, run_struct_de,
}

module _ {Ty : Type 0} where
  -- The fields that are kept: `#[borsh_skip]` counts on named fields only.
  abbrev pub kept : Fields Ty → Field Ty → Bool
  kept (named fields) = not_skipped
  kept (unnamed fields) = every_field
  kept unit = every_field

  -- No two fields have one name.
  abbrev pub DistinctFields : Fields Ty → Type 0
  DistinctFields (named fields) = Distinct (names fields)
  DistinctFields _ = Unit

  pub named_body-names_of :
      (fields : List (Field Ty)) → named_body fields ≡ names_of not_skipped (names fields) fields
  unfolding named_body names_of names
  named_body-names_of [] = refl
  named_body-names_of (field ∷ fields) = elim (Bool-cases (contains_skip field.attrs)) [
    | inl e ↦ rw (e, named_body, names_of) (named_body-names_of fields)
    | inr e ↦
        rw (e, named_body, names_of) (ap (λ z. name field.ident ∷ z) (named_body-names_of fields))
  ]

  unnamed_body-names_of :
      (i : ℕ) (fields : List (Field Ty))
      → unnamed_body i fields ≡ names_of every_field (indices i fields) fields
  unfolding unnamed_body names_of indices
  unnamed_body-names_of i [] = refl
  unnamed_body-names_of i (field ∷ fields) =
      ap (λ z. index i ∷ z) (unnamed_body-names_of (suc i) fields)

  pub named_inits-inits_of :
      (fields : List (Field Ty)) → named_inits fields ≡ inits_of not_skipped fields
  unfolding named_inits inits_of
  named_inits-inits_of [] = refl
  named_inits-inits_of (field ∷ fields) = elim (Bool-cases (contains_skip field.attrs)) [
    | inl e ↦
        rw (e, named_inits, inits_of) (ap (λ z. default_value ∷ z) (named_inits-inits_of fields))
    | inr e ↦ rw (e, named_inits, inits_of) (ap (λ z. read_value ∷ z) (named_inits-inits_of fields))
  ]

  unnamed_inits-inits_of :
      (fields : List (Field Ty)) → unnamed_inits fields ≡ inits_of every_field fields
  unfolding unnamed_inits inits_of
  unnamed_inits-inits_of [] = refl
  unnamed_inits-inits_of (field ∷ fields) = ap (λ z. read_value ∷ z) (unnamed_inits-inits_of fields)

  pub names-InScope : (fields : List (Field Ty)) → InScope (names fields) fields
  unfolding names
  names-InScope [] = tt
  names-InScope (field ∷ fields) = (eq_refl field.ident, names-InScope fields)

  indices-InScope : (i : ℕ) (fields : List (Field Ty)) → InScope (indices i fields) fields
  unfolding indices
  indices-InScope i [] = tt
  indices-InScope i (field ∷ fields) = (==_self i, indices-InScope (suc i) fields)

  indices-later :
      (i j : ℕ) (fields : List (Field Ty))
      → i < j
      → All (λ y. same_ident y (index i) ≡ false) (indices j fields)
  unfolding indices
  indices-later i j [] h = tt
  indices-later i j (field ∷ fields) h =
      (ground arith, indices-later i (suc j) fields (omega arith))

  indices-Distinct : (i : ℕ) (fields : List (Field Ty)) → Distinct (indices i fields)
  unfolding indices
  indices-Distinct i [] = tt
  indices-Distinct i (field ∷ fields) =
      (indices-later i (suc i) fields (omega arith), indices-Distinct (suc i) fields)

module _ {W Ty : Type 0} ⦃wr : Write W⦄ (law : IsWrite wr) {El : Ty → Type 0}
    {ser : (a : Ty) → BorshSerialize W (El a)} {Valid : (a : Ty) → El a → Type 0}
    {enc : (a : Ty) → El a → List ℕ} (h : (a : Ty) → IsSerialize wr (ser a) (Valid a) (enc a)) where
  -- For a writer that takes a buffer as it takes its parts, and field types whose values are
  -- written as their encodings, the implementation that `struct_ser` generates for a struct,
  -- no two of its fields with one name, writes a value with valid kept fields as their
  -- encodings in order, in any state of the writer. The fields of a tuple struct are all
  -- kept, of the named ones those without `borsh_skip`.
  pub struct_ser-encode_kept :
      (input : ItemStruct Ty) (v : Values El (field_list input.fields)) (w : W)
      → DistinctFields input.fields
      → KeptValid (kept input.fields) Valid (field_list input.fields) v
      → run_struct_ser ser input.fields (struct_ser input) v w
        ≡ wr.write_all (encode_kept (kept input.fields) enc (field_list input.fields) v) w
  unfolding struct_ser names_of
  struct_ser-encode_kept input v w = by_fields input.fields v
    where
      by_fields :
          (fields : Fields Ty) (v : Values El (field_list fields))
          → DistinctFields fields
          → KeptValid (kept fields) Valid (field_list fields) v
          → run_struct_ser ser fields
              (code (record { predicates = []; body = fields_body fields }))
              v
              w
            ≡ wr.write_all (encode_kept (kept fields) enc (field_list fields) v) w
      by_fields (named fields) v d valid = rw (named_body-names_of fields) (
          (serialize_names-Emits law h not_skipped (names fields) fields v d (names-InScope fields)
              valid).writes
            w)
      by_fields (unnamed fields) v d valid = rw (unnamed_body-names_of 0 fields) (
          (serialize_names-Emits law h every_field (indices 0 fields) fields v
              (indices-Distinct 0 fields) (indices-InScope 0 fields) valid).writes
            w)
      by_fields unit v d valid = (serialize_names-Emits law h every_field [] [] v tt tt tt).writes w

module _ {R Ty : Type 0} ⦃rd : Read R⦄ {view : R → List ℕ} (law : IsRead rd view) {El : Ty → Type 0}
    {de : (a : Ty) → BorshDeserialize R (El a)} (default_of : (a : Ty) → El a)
    {Valid : (a : Ty) → El a → Type 0} {enc : (a : Ty) → El a → List ℕ}
    (h : (a : Ty) → IsDeserialize view (de a) (Valid a) (enc a)) where
  -- Over any reader that keeps its contract and for field types that are read from their
  -- encodings, the implementation that `struct_de` generates for a struct reads a value with
  -- valid kept fields back from an input that begins with their encodings, with the default
  -- for each field that is not kept, calls the method of `borsh_init` on it if there is one,
  -- and leaves the rest.
  pub struct_de-restored :
      (input : ItemStruct Ty)
      (methods : String → Values El (field_list input.fields) → Values El (field_list input.fields))
      (method : Option String) (v : Values El (field_list input.fields)) (s : R) (rest : List ℕ)
      → contains_initialize_with input.attrs ≡ code method
      → KeptValid (kept input.fields) Valid (field_list input.fields) v
      → view s ≡ encode_kept (kept input.fields) enc (field_list input.fields) v ++ rest
      → (s' : R) × (run_struct_de de default_of input.fields methods (struct_de input) s ≡ (
        ok (
            run_init methods method
              (restored (kept input.fields) default_of (field_list input.fields) v)),
        s',
      ))
        × (view s' ≡ rest)
  unfolding struct_de inits_of
  struct_de-restored input methods method v s rest init = rw init (by_fields input.fields methods v)
    where
      by_fields :
          (fields : Fields Ty)
          (methods : String → Values El (field_list fields) → Values El (field_list fields))
          (v : Values El (field_list fields))
          → KeptValid (kept fields) Valid (field_list fields) v
          → view s ≡ encode_kept (kept fields) enc (field_list fields) v ++ rest
          → (s' : R) × (run_struct_de de default_of fields methods
                (code
                  (record { predicates = []; return_value = fields_inits fields; init = method }))
                s
              ≡ (
                ok (
                    run_init methods method
                      (restored (kept fields) default_of (field_list fields) v)),
                s',
              ))
            × (view s' ≡ rest)
      by_fields (named fields) methods v valid e = rw (named_inits-inits_of fields) (
          (Reads-map _ _ (run_inits-Reads law default_of h not_skipped fields v valid)
              (λ s. refl)).takes
            s rest e)
      by_fields (unnamed fields) methods v valid e = rw (unnamed_inits-inits_of fields) (
          (Reads-map _ _ (run_inits-Reads law default_of h every_field fields v valid)
              (λ s. refl)).takes
            s rest e)
      by_fields unit methods v valid e =
          (Reads-map _ _ (run_inits-Reads law default_of h every_field [] v valid)
              (λ s. refl)).takes
            s rest e
