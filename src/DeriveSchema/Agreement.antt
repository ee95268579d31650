-- ===== src/DeriveSchema/Agreement.antt =====
-- borsh-schema-derive-internal/src/struct_schema.rs against borsh-derive-internal/src/struct_ser.rs:
-- whether the schema of a struct has the fields that are serialized.
use Prim.Native.String.{String}
use borsh_rs.Prelude.{
  suc, ◌≤◌, ◌≡◌, ◌↔◌, refl, ap, false, List, [], ◌∷◌, Option, some, none, length, All, arith, Bool,
  Bool-cases, inl, inr, if◌then◌else◌,
}
use borsh_rs.Derive.{Field, Fields, named, unnamed, unit, contains_skip}
use borsh_rs.Derive.Kept.{not_skipped, every_field}
use borsh_rs.Derive.Struct.Laws.{kept}
use package.borsh_rs.DeriveSchema.{
  FieldsCode, named_code, unnamed_code, empty_code, SchemaStruct, named_vec, unnamed_vec,
  named_or_empty, unnamed_or_empty, struct_fields, process_struct,
}

module _ {Ty : Type 0} where
  abbrev with_names : List (String × Ty) → List (Option String × Ty)
  with_names [] = []
  with_names ((ident, a) ∷ rest) = (some ident, a) ∷ with_names rest

  abbrev without_names : List Ty → List (Option String × Ty)
  without_names [] = []
  without_names (a ∷ rest) = (none, a) ∷ without_names rest

  -- The fields that the schema has: their types, and their names if they have names.
  abbrev pub schema_entries : FieldsCode Ty → List (Option String × Ty)
  schema_entries (named_code xs) = with_names xs
  schema_entries (unnamed_code xs) = without_names xs
  schema_entries empty_code = []

  -- The same of the fields of an item that pass a test, in order.
  abbrev pub entries_with :
      (Field Ty → Option String) → (Field Ty → Bool) → List (Field Ty) → List (Option String × Ty)
  entries_with label keep [] = []
  entries_with label keep (field ∷ fields) =
      let rest = entries_with label keep fields in
      if keep field then (label field, field.ty) ∷ rest else rest

  -- The fields that a derived `serialize` writes.
  abbrev pub kept_entries : Fields Ty → List (Option String × Ty)
  kept_entries (named fields) =
      entries_with (λ field. some field.ident) (kept (named fields)) fields
  kept_entries (unnamed fields) = entries_with (λ field. none) (kept (unnamed fields)) fields
  kept_entries unit = []

  -- No field of a tuple struct is skipped.
  abbrev pub NoSkippedIndex : Fields Ty → Type 0
  NoSkippedIndex (unnamed fields) = All (λ field. contains_skip field.attrs ≡ false) fields
  NoSkippedIndex _ = Unit

  named_or_empty-with_names :
      (xs : List (String × Ty)) → schema_entries (named_or_empty xs) ≡ with_names xs
  named_or_empty-with_names [] = refl
  named_or_empty-with_names (x ∷ xs) = refl

  unnamed_or_empty-without_names :
      (xs : List Ty) → schema_entries (unnamed_or_empty xs) ≡ without_names xs
  unnamed_or_empty-without_names [] = refl
  unnamed_or_empty-without_names (x ∷ xs) = refl

  named_vec-entries_with :
      (fields : List (Field Ty))
      → with_names (named_vec fields) ≡ entries_with (λ field. some field.ident) not_skipped fields
  unfolding named_vec
  named_vec-entries_with [] = refl
  named_vec-entries_with (field ∷ fields) = elim (Bool-cases (contains_skip field.attrs)) [
    | inl e ↦ rw (e, named_vec) (named_vec-entries_with fields)
    | inr e ↦
        rw (e, named_vec)
          (ap (λ z. (some field.ident, field.ty) ∷ z) (named_vec-entries_with fields))
  ]

  unnamed_vec-entries_with :
      (fields : List (Field Ty))
      → All (λ field. contains_skip field.attrs ≡ false) fields
      → without_names (unnamed_vec fields) ≡ entries_with (λ field. none) every_field fields
  unfolding unnamed_vec
  unnamed_vec-entries_with [] h = refl
  unnamed_vec-entries_with (field ∷ fields) h =
      rw (h.0, unnamed_vec) (ap (λ z. (none, field.ty) ∷ z) (unnamed_vec-entries_with fields h.1))

  length-without_names : (xs : List Ty) → length (without_names xs) ≡ length xs
  length-without_names [] = refl
  length-without_names (x ∷ xs) = ap suc (length-without_names xs)

  length-entries_with :
      (fields : List (Field Ty))
      → length (entries_with (λ field. none) every_field fields) ≡ length fields
  length-entries_with [] = refl
  length-entries_with (field ∷ fields) = ap suc (length-entries_with fields)

  length-unnamed_vec : (fields : List (Field Ty)) → length (unnamed_vec fields) ≤ length fields
  unfolding unnamed_vec
  length-unnamed_vec [] = omega arith
  length-unnamed_vec (field ∷ fields) =
      let rest = length-unnamed_vec fields in
      elim (Bool-cases (contains_skip field.attrs)) [
        | inl e ↦ rw (e, unnamed_vec) (omega arith)
        | inr e ↦ rw (e, unnamed_vec) (omega arith)
      ]

  -- If none is missing, none was skipped.
  full-unnamed_vec :
      (fields : List (Field Ty))
      → length (unnamed_vec fields) ≡ length fields
      → All (λ field. contains_skip field.attrs ≡ false) fields
  unfolding unnamed_vec
  full-unnamed_vec [] h = tt
  full-unnamed_vec (field ∷ fields) h =
      let bound = length-unnamed_vec fields in
      elim (Bool-cases (contains_skip field.attrs)) [
        | inl e ↦ let h' = rw (e, unnamed_vec) at h in absurd (omega arith)
        | inr e ↦ let h' = rw (e, unnamed_vec) at h in (e, full-unnamed_vec fields (omega arith))
      ]

  -- The fields in the schema that `process_struct` generates for a struct, with their names
  -- and types, are in the same order those that a derived `serialize` writes, all of a tuple
  -- struct and those without `borsh_skip` of one with named fields, exactly if it is no tuple
  -- struct with a skipped field.
  pub process_struct-kept_entries :
      (item : SchemaStruct Ty)
      → (schema_entries (process_struct item).fields ≡ kept_entries item.fields)
        ↔ NoSkippedIndex item.fields
  unfolding process_struct
  process_struct-kept_entries item = by_fields item.fields
    where
      by_fields :
          (fields : Fields Ty)
          → (schema_entries (struct_fields fields) ≡ kept_entries fields) ↔ NoSkippedIndex fields
      by_fields (named fields) = (
        λ e. tt,
        λ h. rw (named_or_empty-with_names (named_vec fields)) (named_vec-entries_with fields),
      )
      by_fields (unnamed fields) = (
        (λ e.
            let lengths =
              ap length (rw (unnamed_or_empty-without_names (unnamed_vec fields)) at e) in
            full-unnamed_vec fields (
              rw (length-without_names (unnamed_vec fields), length-entries_with fields) at
                lengths)),
        (λ h.
            rw (unnamed_or_empty-without_names (unnamed_vec fields))
              (unnamed_vec-entries_with fields h)),
      )
      by_fields unit = (λ e. tt, λ h. refl)
