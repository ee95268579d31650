-- ===== src/DeriveSchema/Written.antt =====
-- borsh-derive-internal/src/struct_ser.rs: which fields of a struct the generated code writes, with
-- their types, to be compared with those in its schema.
use Prim.Native.String.{String}
use text.Mathlib.Text.{◌==◌ as str_eq}
use text.Mathlib.TextPositions.{eq_refl}
use borsh_rs.Prelude.{
  ℕ, zero, suc, ◌≡◌, ◌↔◌, refl, ap, ◌∙◌, false, List, [], ◌∷◌, Option, some, none, All, Bool-cases,
  inl, inr, if◌then◌else◌,
}
use borsh_rs.Derive.{
  Field, Fields, named, unnamed, unit, contains_skip, Expansion, code, ItemStruct,
}
use borsh_rs.Derive.Code.{Ident, name, index, names, field_list, same_ident}
use borsh_rs.Derive.Kept.{not_skipped, every_field}
use borsh_rs.Derive.Struct.{StructSer, struct_ser, named_body, unnamed_body, fields_body}
use borsh_rs.Derive.Struct.Laws.{DistinctFields}
use package.borsh_rs.DeriveSchema.{SchemaStruct, process_struct}
use package.borsh_rs.DeriveSchema.Agreement.{
  schema_entries, entries_with, kept_entries, NoSkippedIndex, process_struct-kept_entries,
}

module _ {Ty : Type 0} where
  -- The field that `self.name` or `self.0` is.
  abbrev field_named : String → List (Field Ty) → Option (Option String × Ty)
  field_named key [] = none
  field_named key (field ∷ fields) =
      let later = field_named key fields in
      if str_eq key field.ident then some (some field.ident, field.ty) else later

  abbrev field_at : ℕ → List (Field Ty) → Option (Option String × Ty)
  field_at i [] = none
  field_at zero (field ∷ fields) = some (none, field.ty)
  field_at (suc i) (field ∷ fields) = field_at i fields

  abbrev field_of : List (Field Ty) → Ident → Option (Option String × Ty)
  field_of fields (name key) = field_named key fields
  field_of fields (index i) = field_at i fields
  field_of fields _ = none

  abbrev fields_of : List (Field Ty) → List Ident → List (Option (Option String × Ty))
  fields_of fields [] = []
  fields_of fields (x ∷ xs) = field_of fields x ∷ fields_of fields xs

  -- The fields that the generated `serialize` writes, in order.
  abbrev pub written_entries :
      Fields Ty → Expansion (StructSer Ty) → List (Option (Option String × Ty))
  written_entries fields (code impl) = fields_of (field_list fields) impl.body
  written_entries fields _ = []

  abbrev pub all_some : List (Option String × Ty) → List (Option (Option String × Ty))
  all_some [] = []
  all_some (x ∷ xs) = some x ∷ all_some xs

  -- Each field is found by its name.
  abbrev FoundBy : List (Field Ty) → Field Ty → Type 0
  FoundBy fields field = field_named field.ident fields ≡ some (some field.ident, field.ty)

  found_later :
      (field : Field Ty) (fields some_fields : List (Field Ty))
      → All (λ later. str_eq later.ident field.ident ≡ false) some_fields
      → All (FoundBy fields) some_fields
      → All (FoundBy (field ∷ fields)) some_fields
  found_later field fields [] h k = tt
  found_later field fields (later ∷ rest) h k = (rw h.0 k.0, found_later field fields rest h.1 k.1)

  apart_names :
      (field : Field Ty) (fields : List (Field Ty))
      → All (λ y. same_ident y (name field.ident) ≡ false) (names fields)
      → All (λ later. str_eq later.ident field.ident ≡ false) fields
  unfolding names
  apart_names field [] h = tt
  apart_names field (later ∷ rest) h = (h.0, apart_names field rest h.1)

  all_FoundBy :
      (fields : List (Field Ty)) → DistinctFields (named fields) → All (FoundBy fields) fields
  unfolding names
  all_FoundBy [] h = tt
  all_FoundBy (field ∷ fields) h = (
    rw (eq_refl field.ident) refl,
    found_later field fields fields (apart_names field fields h.0) (all_FoundBy fields h.1),
  )

  named_body-entries_with :
      (fields some_fields : List (Field Ty))
      → All (FoundBy fields) some_fields
      → fields_of fields (named_body some_fields)
        ≡ all_some (entries_with (λ field. some field.ident) not_skipped some_fields)
  unfolding named_body
  named_body-entries_with fields [] h = refl
  named_body-entries_with fields (field ∷ rest) h = elim (Bool-cases (contains_skip field.attrs)) [
    | inl e ↦ rw (e, named_body) (named_body-entries_with fields rest h.1)
    | inr e ↦ rw (e, named_body, h.0, named_body-entries_with fields rest h.1) refl
  ]

  -- Behind a further field, the positions are moved by one.
  unnamed_body-shift :
      (field : Field Ty) (fields some_fields : List (Field Ty)) (i : ℕ)
      → fields_of (field ∷ fields) (unnamed_body (suc i) some_fields)
        ≡ fields_of fields (unnamed_body i some_fields)
  unfolding unnamed_body
  unnamed_body-shift field fields [] i = refl
  unnamed_body-shift field fields (x ∷ rest) i =
      ap (λ z. field_at i fields ∷ z) (unnamed_body-shift field fields rest (suc i))

  unnamed_body-entries_with :
      (fields : List (Field Ty))
      → fields_of fields (unnamed_body 0 fields)
        ≡ all_some (entries_with (λ field. none) every_field fields)
  unfolding unnamed_body
  unnamed_body-entries_with [] = refl
  unnamed_body-entries_with (field ∷ fields) =
      ap (λ z. some (none, field.ty) ∷ z)
        (unnamed_body-shift field fields fields 0 ∙ unnamed_body-entries_with fields)

  fields_body-kept_entries :
      (fields : Fields Ty)
      → DistinctFields fields
      → fields_of (field_list fields) (fields_body fields) ≡ all_some (kept_entries fields)
  fields_body-kept_entries (named fields) h =
      named_body-entries_with fields fields (all_FoundBy fields h)
  fields_body-kept_entries (unnamed fields) h = unnamed_body-entries_with fields
  fields_body-kept_entries unit h = refl

  all_some-injective : (xs ys : List (Option String × Ty)) → all_some xs ≡ all_some ys → xs ≡ ys
  all_some-injective [] [] e = refl
  all_some-injective [] (y ∷ ys) e = absurd (cc)
  all_some-injective (x ∷ xs) [] e = absurd (cc)
  all_some-injective (x ∷ xs) (y ∷ ys) e =
      let head : x ≡ y = cc in
      let tail : all_some xs ≡ all_some ys = cc in let rest = all_some-injective xs ys tail in cc

  -- For a struct as both macros get it, no two of its fields with one name: the fields in the
  -- schema that `process_struct` generates, with their names and types, are those that the
  -- code of `struct_ser` writes, in the same order, exactly if it is no tuple struct with a
  -- skipped field.
  pub process_struct-struct_ser :
      (input : ItemStruct Ty) (item : SchemaStruct Ty)
      → item.fields ≡ input.fields
      → DistinctFields input.fields
      → (all_some (schema_entries (process_struct item).fields)
          ≡ written_entries input.fields (struct_ser input))
        ↔ NoSkippedIndex input.fields
  unfolding struct_ser
  process_struct-struct_ser input item same distinct =
      let (there, back) = process_struct-kept_entries item in
      let written = fields_body-kept_entries input.fields distinct in
      (
        λ e.
            let kept =
              all_some-injective (schema_entries (process_struct item).fields)
                (kept_entries input.fields) (e ∙ written) in
            rw (← same) (there (rw (← same) at kept)),
        λ h. rw written (ap all_some (back (rw (← same) at h) ∙ ap kept_entries same)),
      )
