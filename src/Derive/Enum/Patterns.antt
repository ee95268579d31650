-- ===== src/Derive/Enum/Patterns.antt =====
-- borsh-derive-internal/src/enum_ser.rs: which of the generated code compiles.
use borsh_rs.Prelude.{
  ℕ, suc, ◌≡◌, refl, true, List, [], ◌∷◌, ◌++◌, All, Bool-cases, inl, inr, lt→ltb,
}
use package.borsh_rs.Derive.{Field, Fields, named, unnamed, unit, contains_skip}
use package.borsh_rs.Derive.Discriminants.{Token, Variant, lit, plus, this_discriminant, value}
use package.borsh_rs.Derive.Discriminants.Laws.{entries_from, evaluated}
use package.borsh_rs.Derive.Enum.Spec.{TagsFit}
use package.borsh_rs.Derive.Enum.{named_header, unnamed_header, variant_header}
use package.borsh_rs.Derive.Enum.Run.{all_bindings, arms_compile}
use package.borsh_rs.Derive.Enum.Laws.{Bindable, ser_arms_of}

module _ {Ty : Type 0} where
  named_header-all_bindings :
      (fields : List (Field Ty))
      → Bindable (named fields)
      → all_bindings (named_header fields) ≡ true
  unfolding named_header
  named_header-all_bindings [] h = refl
  named_header-all_bindings (field ∷ fields) h =
      rw (h.0.0, h.0.1, named_header) (named_header-all_bindings fields h.1)

  unnamed_header-all_bindings :
      (i : ℕ) (fields : List (Field Ty)) → all_bindings (unnamed_header i fields) ≡ true
  unfolding unnamed_header
  unnamed_header-all_bindings i [] = refl
  unnamed_header-all_bindings i (field ∷ fields) = elim (Bool-cases (contains_skip field.attrs)) [
    | inl e ↦ rw (e, unnamed_header) (unnamed_header-all_bindings (suc i) fields)
    | inr e ↦ rw (e, unnamed_header) (unnamed_header-all_bindings (suc i) fields)
  ]

  variant_header-all_bindings :
      (fields : Fields Ty) → Bindable fields → all_bindings (variant_header fields) ≡ true
  variant_header-all_bindings (named fields) h = named_header-all_bindings fields h
  variant_header-all_bindings (unnamed fields) h = unnamed_header-all_bindings 0 fields
  variant_header-all_bindings unit h = refl

  pub arms_compile-Bindable :
      (next : List Token) (variants : List (Variant Ty))
      → All (λ variant. Bindable variant.fields) variants
      → TagsFit (evaluated (entries_from next variants))
      → arms_compile (ser_arms_of (entries_from next variants) variants) ≡ true
  unfolding arms_compile evaluated
  arms_compile-Bindable next [] bindable fit = refl
  arms_compile-Bindable next (variant ∷ variants) bindable fit =
      let this = this_discriminant next variant.discriminant in
      rw (variant_header-all_bindings variant.fields bindable.0, lt→ltb (value this) 256 fit.0)
        (arms_compile-Bindable (this ++ (plus ∷ lit 1 ∷ [])) variants bindable.1 fit.1)
