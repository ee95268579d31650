-- ===== src/Derive/Enum/Total.antt =====
-- borsh-derive-internal/src/enum_ser.rs, enum_de.rs and struct_de.rs: the `unwrap` of a discriminant
-- does not fail, whatever the names of the variants.
use Prim.Native.String.{String}
use text.Mathlib.Text.{◌==◌ as str_eq}
use text.Mathlib.TextEquality.{eq_iff}
use text.Mathlib.TextPositions.{eq_refl}
use borsh_rs.Prelude.{◌≡◌, List, [], ◌∷◌, ◌++◌, All, Bool-cases, inl, inr, Option, some, none}
use borsh_rs.De.Collections.{hash_insert}
use package.borsh_rs.Derive.{
  Attribute, NestedMeta, Expansion, code, error, macro_panicked, ◌>>=◌, init_method, or_later,
  contains_initialize_with, ItemStruct,
}
use package.borsh_rs.Derive.Struct.{struct_de}
use package.borsh_rs.Derive.Discriminants.{
  Token, Variant, lit, plus, this_discriminant, discriminants_from, discriminant_map,
}
use package.borsh_rs.Derive.Enum.{ItemEnum, get_unwrap, ser_arms, de_arms, enum_ser, enum_de}

abbrev pub IsCode : {A : Type 0} → Expansion A → Type 0
IsCode (code a) = Unit
IsCode _ = ⊥

bind-IsCode :
    {A B : Type 0} (m : Expansion A) (f : A → Expansion B)
    → IsCode m
    → ((a : A) → IsCode (f a))
    → IsCode (m >>= f)
bind-IsCode (code a) f h k = k a
bind-IsCode (error e) f h k = h
bind-IsCode macro_panicked f h k = h

-- The map has a discriminant for the name.
abbrev Has : List (String × List Token) → String → Type 0
Has map ident = IsCode (get_unwrap ident map)

Has-front :
    (key ident : String) (tokens : List Token) (map : List (String × List Token))
    → Has map ident
    → Has ((key, tokens) ∷ map) ident
unfolding get_unwrap
Has-front key ident tokens map h = elim (Bool-cases (str_eq key ident)) [
  | inl same ↦ rw (same, get_unwrap) tt
  | inr same ↦ rw (same, get_unwrap) h
]

Has-self :
    (key : String) (tokens : List Token) (map : List (String × List Token))
    → Has ((key, tokens) ∷ map) key
unfolding get_unwrap
Has-self key tokens map = rw (eq_refl key) tt

hash_insert-Has_new :
    (key : String) (tokens : List Token) (map : List (String × List Token))
    → Has (hash_insert str_eq key tokens map) key
unfolding hash_insert
hash_insert-Has_new key tokens [] = Has-self key tokens []
hash_insert-Has_new key tokens ((k, v) ∷ map) = elim (Bool-cases (str_eq key k)) [
  | inl e ↦
      let same : key ≡ k = (eq_iff key k).0 e in rw (e, hash_insert, same) (Has-self k tokens map)
  | inr e ↦
      rw (e, hash_insert)
        (Has-front k key v (hash_insert str_eq key tokens map) (hash_insert-Has_new key tokens map))
]

Has-tail :
    (k ident : String) (v w : List Token) (map more : List (String × List Token))
    → (Has map ident → Has more ident)
    → Has ((k, v) ∷ map) ident
    → Has ((k, w) ∷ more) ident
unfolding get_unwrap
Has-tail k ident v w map more go h = elim (Bool-cases (str_eq k ident)) [
  | inl same ↦ rw (same, get_unwrap) tt
  | inr same ↦ rw (same, get_unwrap) (go (rw (same, get_unwrap) at h))
]

hash_insert-Has_old :
    (key ident : String) (tokens : List Token) (map : List (String × List Token))
    → Has map ident
    → Has (hash_insert str_eq key tokens map) ident
unfolding hash_insert
hash_insert-Has_old key ident tokens [] h = Has-front key ident tokens [] h
hash_insert-Has_old key ident tokens ((k, v) ∷ map) h = elim (Bool-cases (str_eq key k)) [
  | inl e ↦ rw (e, hash_insert) (Has-tail k ident v tokens map map (λ z. z) h)
  | inr e ↦
      rw (e, hash_insert)
        (Has-tail k ident v v map (hash_insert str_eq key tokens map)
          (hash_insert-Has_old key ident tokens map) h)
]

module _ {Ty : Type 0} where
  discriminants_from-Has_old :
      (next : List Token) (map : List (String × List Token)) (variants : List (Variant Ty))
      (ident : String)
      → Has map ident
      → Has (discriminants_from next map variants) ident
  unfolding discriminants_from
  discriminants_from-Has_old next map [] ident h = h
  discriminants_from-Has_old next map (variant ∷ variants) ident h =
      let this = this_discriminant next variant.discriminant in
      discriminants_from-Has_old (this ++ (plus ∷ lit 1 ∷ []))
        (hash_insert str_eq variant.ident this map) variants ident
        (hash_insert-Has_old variant.ident ident this map h)

  discriminants_from-Has_all :
      (next : List Token) (map : List (String × List Token)) (variants : List (Variant Ty))
      → All (λ variant. Has (discriminants_from next map variants) variant.ident) variants
  unfolding discriminants_from
  discriminants_from-Has_all next map [] = tt
  discriminants_from-Has_all next map (variant ∷ variants) =
      let this = this_discriminant next variant.discriminant in
      let after = this ++ (plus ∷ lit 1 ∷ []) in
      let more = hash_insert str_eq variant.ident this map in
      (
        discriminants_from-Has_old after more variants variant.ident
            (hash_insert-Has_new variant.ident this map),
        discriminants_from-Has_all after more variants,
      )

  ser_arms-Has :
      (map : List (String × List Token)) (variants : List (Variant Ty))
      → All (λ variant. Has map variant.ident) variants
      → IsCode (ser_arms map variants)
  unfolding ser_arms
  ser_arms-Has map [] h = tt
  ser_arms-Has map (variant ∷ variants) h =
      bind-IsCode (get_unwrap variant.ident map) _ h.0
        λ tokens. bind-IsCode (ser_arms map variants) _ (ser_arms-Has map variants h.1) λ rest. tt

  de_arms-Has :
      (map : List (String × List Token)) (variants : List (Variant Ty))
      → All (λ variant. Has map variant.ident) variants
      → IsCode (de_arms map variants)
  unfolding de_arms
  de_arms-Has map [] h = tt
  de_arms-Has map (variant ∷ variants) h =
      bind-IsCode (get_unwrap variant.ident map) _ h.0
        λ tokens. bind-IsCode (de_arms map variants) _ (de_arms-Has map variants h.1) λ rest. tt

  pub enum_ser-IsCode : (input : ItemEnum Ty) → IsCode (enum_ser input)
  unfolding enum_ser discriminant_map
  enum_ser-IsCode input =
      bind-IsCode (ser_arms (discriminant_map input.variants) input.variants) _
        (ser_arms-Has (discriminant_map input.variants) input.variants
          (discriminants_from-Has_all (lit 0 ∷ []) [] input.variants))
        (λ arms. tt)

-- What is not a panic.
abbrev pub Returned : {A : Type 0} → Expansion A → Type 0
Returned macro_panicked = ⊥
Returned _ = Unit

or_later-Returned :
    (found later : Expansion (Option String))
    → Returned found
    → Returned later
    → Returned (or_later found later)
or_later-Returned (code (some p)) later h k = tt
or_later-Returned (code none) later h k = k
or_later-Returned (error e) later h k = tt
or_later-Returned macro_panicked later h k = h

init_method-Returned : (nested : List NestedMeta) → Returned (init_method nested)
init_method-Returned [] = tt
init_method-Returned (NestedMeta.path p ∷ []) = tt
init_method-Returned (NestedMeta.other ∷ []) = tt
init_method-Returned (x ∷ y ∷ rest) = tt

contains_initialize_with-Returned :
    (attrs : List Attribute) → Returned (contains_initialize_with attrs)
unfolding contains_initialize_with
contains_initialize_with-Returned [] = tt
contains_initialize_with-Returned (Attribute.list p nested ∷ attrs) =
    let later = contains_initialize_with-Returned attrs in
    elim (Bool-cases (str_eq p "borsh_init")) [
      | inl e ↦
          rw (e, contains_initialize_with)
            (or_later-Returned (init_method nested) (contains_initialize_with attrs)
              (init_method-Returned nested) later)
      | inr e ↦ rw (e, contains_initialize_with) later
    ]
contains_initialize_with-Returned (Attribute.path p ∷ attrs) =
    contains_initialize_with-Returned attrs
contains_initialize_with-Returned (Attribute.name_value ∷ attrs) =
    contains_initialize_with-Returned attrs
contains_initialize_with-Returned (Attribute.unparsed ∷ attrs) =
    contains_initialize_with-Returned attrs

bind-Returned :
    {A B : Type 0} (m : Expansion A) (f : A → Expansion B)
    → Returned m
    → ((a : A) → Returned (f a))
    → Returned (m >>= f)
bind-Returned (code a) f h k = k a
bind-Returned (error e) f h k = tt
bind-Returned macro_panicked f h k = h

pub IsCode-Returned : {A : Type 0} (m : Expansion A) → IsCode m → Returned m
IsCode-Returned (code a) h = tt
IsCode-Returned (error e) h = tt
IsCode-Returned macro_panicked h = h

module _ {Ty : Type 0} where
  pub struct_de-Returned : (input : ItemStruct Ty) → Returned (struct_de input)
  unfolding struct_de
  struct_de-Returned input =
      bind-Returned (contains_initialize_with input.attrs) _
        (contains_initialize_with-Returned input.attrs) (λ method. tt)

  pub enum_de-Returned : (input : ItemEnum Ty) → Returned (enum_de input)
  unfolding enum_de discriminant_map
  enum_de-Returned input =
      bind-Returned (contains_initialize_with input.attrs) _
        (contains_initialize_with-Returned input.attrs)
        (λ method.
          bind-Returned (de_arms (discriminant_map input.variants) input.variants) _
            (IsCode-Returned _ (
              de_arms-Has (discriminant_map input.variants) input.variants
                (discriminants_from-Has_all (lit 0 ∷ []) [] input.variants)))
            (λ arms. tt))
