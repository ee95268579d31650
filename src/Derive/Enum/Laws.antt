-- ===== src/Derive/Enum/Laws.antt =====
-- borsh-derive-internal/src/enum_ser.rs and borsh-derive-internal/src/enum_de.rs: the arms that the
-- macros generate, and the patterns in them.
use Prim.Native.String.{String}
use text.Mathlib.Text.{◌==◌ as str_eq}
use text.Mathlib.TextEquality.{eq_iff}
use text.Mathlib.TextPositions.{eq_refl}
use borsh_rs.Prelude.{
  ℕ, suc, ◌<◌, ◌≡◌, refl, sym, ap, true, false, List, [], ◌∷◌, ◌++◌, All, arith, Bool-cases, inl,
  inr, ==_self,
}
use package.borsh_rs.Derive.{Field, Fields, named, code, contains_skip}
use package.borsh_rs.Derive.Code.{name, id, unused_id, same_ident, names}
use package.borsh_rs.Derive.Kept.{not_skipped, names_of, Distinct, InScope}
use package.borsh_rs.Derive.Discriminants.{
  Token, Variant, lit, plus, this_discriminant, discriminant_map,
}
use package.borsh_rs.Derive.Discriminants.Laws.{
  entries_from, DistinctVariants, discriminant_map-entries_from,
}
use package.borsh_rs.Derive.Enum.{
  SerArm, DeArm, get_unwrap, named_header, unnamed_header, unnamed_ids, variant_header,
  variant_body, variant_inits, ser_arms, de_arms,
}

pub str_eq-false_symm : (x y : String) → str_eq x y ≡ false → str_eq y x ≡ false
str_eq-false_symm x y h = elim (Bool-cases (str_eq y x)) [
  | inl e ↦
      let same : x ≡ y = sym ((eq_iff y x).0 e) in
      let yes_eq : str_eq x y ≡ true = (eq_iff x y).1 same in cc
  | inr e ↦ e
]

pub names_differ :
    {Ty : Type 0} (key : String) (variants : List (Variant Ty))
    → All (λ later. str_eq later.ident key ≡ false) variants
    → All (λ later. str_eq key later.ident ≡ false) variants
names_differ key [] h = tt
names_differ key (variant ∷ variants) h =
    (str_eq-false_symm variant.ident key h.0, names_differ key variants h.1)

-- The entries of the map that the variants look up.
abbrev pub Found :
    {Ty : Type 0}
    → List (String × List Token)
    → List (String × List Token)
    → List (Variant Ty)
    → Type 0
Found map [] [] = Unit
Found map ((key, tokens) ∷ entries) (variant ∷ variants) =
    (get_unwrap variant.ident map ≡ code tokens) × Found map entries variants
Found map _ _ = ⊥

Found-cons :
    {Ty : Type 0} (key : String) (tokens : List Token) (map entries : List (String × List Token))
    (variants : List (Variant Ty))
    → All (λ later. str_eq later.ident key ≡ false) variants
    → Found map entries variants
    → Found ((key, tokens) ∷ map) entries variants
unfolding get_unwrap
Found-cons key tokens map [] [] h f = tt
Found-cons key tokens map (entry ∷ entries) [] h f = absurd f
Found-cons key tokens map [] (variant ∷ variants) h f = absurd f
Found-cons key tokens map (entry ∷ entries) (variant ∷ variants) h f = (
  rw (str_eq-false_symm variant.ident key h.0, get_unwrap) f.0,
  Found-cons key tokens map entries variants h.1 f.1,
)

Found-entries_from :
    {Ty : Type 0} (next : List Token) (variants : List (Variant Ty))
    → DistinctVariants variants
    → Found (entries_from next variants) (entries_from next variants) variants
unfolding get_unwrap
Found-entries_from next [] distinct = tt
Found-entries_from next (variant ∷ variants) distinct =
    let this = this_discriminant next variant.discriminant in
    let after = entries_from (this ++ (plus ∷ lit 1 ∷ [])) variants in
    (
      rw (eq_refl variant.ident) refl,
      Found-cons variant.ident this after after variants distinct.0
          (Found-entries_from (this ++ (plus ∷ lit 1 ∷ [])) variants distinct.1),
    )

-- The arms, for the entries of the variants.
abbrev pub ser_arms_of :
    {Ty : Type 0} → List (String × List Token) → List (Variant Ty) → List SerArm
ser_arms_of ((key, tokens) ∷ entries) (variant ∷ variants) =
    record {
      variant = variant.ident;
      discriminant = tokens;
      variant_header = variant_header variant.fields;
      variant_body = variant_body variant.fields;
    }
    ∷ ser_arms_of entries variants
ser_arms_of _ _ = []

abbrev pub de_arms_of : {Ty : Type 0} → List (String × List Token) → List (Variant Ty) → List DeArm
de_arms_of ((key, tokens) ∷ entries) (variant ∷ variants) =
    record {
      variant = variant.ident;
      discriminant = tokens;
      variant_header = variant_inits variant.fields;
    }
    ∷ de_arms_of entries variants
de_arms_of _ _ = []

ser_arms-Found :
    {Ty : Type 0} (map entries : List (String × List Token)) (variants : List (Variant Ty))
    → Found map entries variants
    → ser_arms map variants ≡ code (ser_arms_of entries variants)
unfolding ser_arms
ser_arms-Found map [] [] f = refl
ser_arms-Found map (entry ∷ entries) [] f = absurd f
ser_arms-Found map [] (variant ∷ variants) f = absurd f
ser_arms-Found map (entry ∷ entries) (variant ∷ variants) f =
    rw (f.0, ser_arms-Found map entries variants f.1) refl

de_arms-Found :
    {Ty : Type 0} (map entries : List (String × List Token)) (variants : List (Variant Ty))
    → Found map entries variants
    → de_arms map variants ≡ code (de_arms_of entries variants)
unfolding de_arms
de_arms-Found map [] [] f = refl
de_arms-Found map (entry ∷ entries) [] f = absurd f
de_arms-Found map [] (variant ∷ variants) f = absurd f
de_arms-Found map (entry ∷ entries) (variant ∷ variants) f =
    rw (f.0, de_arms-Found map entries variants f.1) refl

module _ {Ty : Type 0} (variants : List (Variant Ty)) (distinct : DistinctVariants variants) where
  pub ser_arms-discriminant_map :
      ser_arms (discriminant_map variants) variants
      ≡ code (ser_arms_of (entries_from (lit 0 ∷ []) variants) variants)
  ser_arms-discriminant_map =
      rw (discriminant_map-entries_from variants distinct)
        (ser_arms-Found _ _ variants (Found-entries_from (lit 0 ∷ []) variants distinct))

  pub de_arms-discriminant_map :
      de_arms (discriminant_map variants) variants
      ≡ code (de_arms_of (entries_from (lit 0 ∷ []) variants) variants)
  de_arms-discriminant_map =
      rw (discriminant_map-entries_from variants distinct)
        (de_arms-Found _ _ variants (Found-entries_from (lit 0 ∷ []) variants distinct))

-- Patterns.
module _ {Ty : Type 0} where
  -- No named field is skipped, and none hides the writer.
  abbrev pub Bindable : Fields Ty → Type 0
  Bindable (named fields) =
      All (λ field. (contains_skip field.attrs ≡ false) × (str_eq field.ident "writer" ≡ false))
        fields
  Bindable _ = Unit

  pub named_header-names :
      (fields : List (Field Ty)) → Bindable (named fields) → named_header fields ≡ names fields
  unfolding named_header names
  named_header-names [] h = refl
  named_header-names (field ∷ fields) h =
      rw (h.0.0, named_header) (ap (λ z. name field.ident ∷ z) (named_header-names fields h.1))

  pub unnamed_ids-names_of :
      (i : ℕ) (fields : List (Field Ty))
      → unnamed_ids i fields ≡ names_of not_skipped (unnamed_header i fields) fields
  unfolding unnamed_ids names_of unnamed_header
  unnamed_ids-names_of i [] = refl
  unnamed_ids-names_of i (field ∷ fields) = elim (Bool-cases (contains_skip field.attrs)) [
    | inl e ↦ rw (e, unnamed_ids, names_of) (unnamed_ids-names_of (suc i) fields)
    | inr e ↦
        rw (e, unnamed_ids, names_of) (ap (λ z. id i ∷ z) (unnamed_ids-names_of (suc i) fields))
  ]

  unnamed_header-later :
      (i j : ℕ) (fields : List (Field Ty))
      → i < j
      → All (λ y. same_ident y (id i) ≡ false) (unnamed_header j fields)
        × All (λ y. same_ident y (unused_id i) ≡ false) (unnamed_header j fields)
  unfolding unnamed_header
  unnamed_header-later i j [] h = (tt, tt)
  unnamed_header-later i j (field ∷ fields) h =
      let (p, q) = unnamed_header-later i (suc j) fields (omega arith) in
      elim (Bool-cases (contains_skip field.attrs)) [
        | inl e ↦ rw (e, unnamed_header) ((refl, p), (ground arith, q))
        | inr e ↦ rw (e, unnamed_header) ((ground arith, p), (refl, q))
      ]

  pub unnamed_header-Distinct :
      (i : ℕ) (fields : List (Field Ty)) → Distinct (unnamed_header i fields)
  unfolding unnamed_header
  unnamed_header-Distinct i [] = tt
  unnamed_header-Distinct i (field ∷ fields) =
      let (p, q) = unnamed_header-later i (suc i) fields (omega arith) in
      let rest = unnamed_header-Distinct (suc i) fields in
      elim (Bool-cases (contains_skip field.attrs)) [
        | inl e ↦ rw (e, unnamed_header) (q, rest)
        | inr e ↦ rw (e, unnamed_header) (p, rest)
      ]

  pub unnamed_header-InScope :
      (i : ℕ) (fields : List (Field Ty)) → InScope (unnamed_header i fields) fields
  unfolding unnamed_header
  unnamed_header-InScope i [] = tt
  unnamed_header-InScope i (field ∷ fields) =
      let rest = unnamed_header-InScope (suc i) fields in
      elim (Bool-cases (contains_skip field.attrs)) [
        | inl e ↦ rw (e, unnamed_header) (==_self i, rest)
        | inr e ↦ rw (e, unnamed_header) (==_self i, rest)
      ]
