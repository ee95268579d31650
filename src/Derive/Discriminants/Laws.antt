-- ===== src/Derive/Discriminants/Laws.antt =====
-- borsh-derive-internal/src/enum_discriminant_map.rs: the discriminants are those that the compiler
-- assigns, where the explicit ones are literals or sums of literals.
use Prim.Native.String.{String}
use text.Mathlib.Text.{◌==◌ as str_eq}
use borsh_rs.Prelude.{
  ℕ, ◌+◌, append-nil, append_assoc, ◌≡◌, refl, ap, ◌∙◌, sym, false, List, [], ◌∷◌, ◌++◌, Option,
  none, some, All,
}
use package.borsh_rs.Derive.Discriminants.{
  Token, lit, plus, shl, Variant, this_discriminant, discriminants_from, discriminant_map,
  value_from, value,
}
use borsh_rs.De.MapReads.{hash_insert-new}

-- The compiler's rule: an explicit discriminant's value, or one more than the previous one's.
abbrev pub compiler_value : ℕ → Option (List Token) → ℕ
compiler_value next none = next
compiler_value next (some e) = value e

abbrev pub compiler_discriminants : {Ty : Type 0} → ℕ → List (Variant Ty) → List (String × ℕ)
compiler_discriminants next [] = []
compiler_discriminants next (variant ∷ variants) =
    (variant.ident, compiler_value next variant.discriminant)
    ∷ compiler_discriminants (compiler_value next variant.discriminant + 1) variants

-- A literal or a sum of literals.
abbrev pub Tight : List Token → Type 0
Tight [] = Unit
Tight (shl ∷ tokens) = ⊥
Tight (lit n ∷ tokens) = Tight tokens
Tight (plus ∷ tokens) = Tight tokens

abbrev pub TightDiscriminant : Option (List Token) → Type 0
TightDiscriminant none = Unit
TightDiscriminant (some e) = Tight e

abbrev pub TightVariants : {Ty : Type 0} → List (Variant Ty) → Type 0
TightVariants [] = Unit
TightVariants (variant ∷ variants) = TightDiscriminant variant.discriminant × TightVariants variants

-- No two variants have one name.
abbrev pub DistinctVariants : {Ty : Type 0} → List (Variant Ty) → Type 0
DistinctVariants [] = Unit
DistinctVariants (variant ∷ variants) =
    All (λ later. str_eq later.ident variant.ident ≡ false) variants × DistinctVariants variants

value_from-succ :
    (sum : ℕ) (tokens : List Token)
    → Tight tokens
    → value_from none sum (tokens ++ (plus ∷ lit 1 ∷ [])) ≡ value_from none sum tokens + 1
unfolding value_from
value_from-succ sum [] h = refl
value_from-succ sum (lit n ∷ tokens) h = value_from-succ (sum + n) tokens h
value_from-succ sum (plus ∷ tokens) h = value_from-succ sum tokens h
value_from-succ sum (shl ∷ tokens) h = absurd h

value-succ :
    (tokens : List Token) → Tight tokens → value (tokens ++ (plus ∷ lit 1 ∷ [])) ≡ value tokens + 1
unfolding value
value-succ tokens h = value_from-succ 0 tokens h

Tight-succ : (tokens : List Token) → Tight tokens → Tight (tokens ++ (plus ∷ lit 1 ∷ []))
Tight-succ [] h = tt
Tight-succ (lit n ∷ tokens) h = Tight-succ tokens h
Tight-succ (plus ∷ tokens) h = Tight-succ tokens h
Tight-succ (shl ∷ tokens) h = absurd h

-- The entries that the loop makes, in the order of the variants.
abbrev pub entries_from :
    {Ty : Type 0} → List Token → List (Variant Ty) → List (String × List Token)
entries_from next [] = []
entries_from next (variant ∷ variants) =
    let this = this_discriminant next variant.discriminant in
    (variant.ident, this) ∷ entries_from (this ++ (plus ∷ lit 1 ∷ [])) variants

-- The values of the entries.
unfoldable pub evaluated : List (String × List Token) → List (String × ℕ)
evaluated [] = []
evaluated ((ident, tokens) ∷ rest) = (ident, value tokens) ∷ evaluated rest

-- The names of these variants are new to the map.
abbrev pub NewTo : {Ty : Type 0} → List (String × List Token) → List (Variant Ty) → Type 0
NewTo entries [] = Unit
NewTo entries (variant ∷ variants) =
    All (λ entry. str_eq variant.ident entry.0 ≡ false) entries × NewTo entries variants

NewTo-nil : {Ty : Type 0} (variants : List (Variant Ty)) → NewTo [] variants
NewTo-nil [] = tt
NewTo-nil (variant ∷ variants) = (tt, NewTo-nil variants)

All-concat :
    {A : Type 0} (P : A → Type 0) (xs : List A) (x : A) → All P xs → P x → All P (xs ++ (x ∷ []))
All-concat P [] x h p = (p, tt)
All-concat P (y ∷ xs) x h p = (h.0, All-concat P xs x h.1 p)

NewTo-concat :
    {Ty : Type 0} (entries : List (String × List Token)) (ident : String) (tokens : List Token)
    (variants : List (Variant Ty))
    → NewTo entries variants
    → All (λ later. str_eq later.ident ident ≡ false) variants
    → NewTo (entries ++ ((ident, tokens) ∷ [])) variants
NewTo-concat entries ident tokens [] h k = tt
NewTo-concat entries ident tokens (variant ∷ variants) h k = (
  All-concat (λ entry. str_eq variant.ident entry.0 ≡ false) entries (ident, tokens) h.0 k.0,
  NewTo-concat entries ident tokens variants h.1 k.1,
)

discriminants_from-entries_from :
    {Ty : Type 0} (next : List Token) (entries : List (String × List Token))
    (variants : List (Variant Ty))
    → NewTo entries variants
    → DistinctVariants variants
    → discriminants_from next entries variants ≡ entries ++ entries_from next variants
unfolding discriminants_from
discriminants_from-entries_from next entries [] new distinct = sym (append-nil entries)
discriminants_from-entries_from next entries (variant ∷ variants) new distinct =
    let this = this_discriminant next variant.discriminant in
    let after = this ++ (plus ∷ lit 1 ∷ []) in
    ap (λ z. discriminants_from after z variants)
      (hash_insert-new str_eq variant.ident this entries new.0)
    ∙ discriminants_from-entries_from after (entries ++ ((variant.ident, this) ∷ [])) variants
        (NewTo-concat entries variant.ident this variants new.1 distinct.0) distinct.1
    ∙ append_assoc entries ((variant.ident, this) ∷ []) (entries_from after variants)

-- The map has an entry for each variant, in order.
pub discriminant_map-entries_from :
    {Ty : Type 0} (variants : List (Variant Ty))
    → DistinctVariants variants
    → discriminant_map variants ≡ entries_from (lit 0 ∷ []) variants
unfolding discriminant_map
discriminant_map-entries_from variants distinct =
    discriminants_from-entries_from (lit 0 ∷ []) [] variants (NewTo-nil variants) distinct

evaluated-entries_from :
    {Ty : Type 0} (next : List Token) (variants : List (Variant Ty))
    → Tight next
    → TightVariants variants
    → evaluated (entries_from next variants) ≡ compiler_discriminants (value next) variants
unfolding evaluated
evaluated-entries_from next [] t h = refl
evaluated-entries_from next (variant ∷ variants) t h =
    by_discriminant (λ n k. evaluated-entries_from n variants k h.1) variant.discriminant h.0
  where
    step :
        ((n : List Token)
          → Tight n
          → evaluated (entries_from n variants) ≡ compiler_discriminants (value n) variants)
        → (this : List Token) → Tight this
        → evaluated (entries_from (this ++ (plus ∷ lit 1 ∷ [])) variants)
          ≡ compiler_discriminants (value this + 1) variants
    step rest this k =
        rest (this ++ (plus ∷ lit 1 ∷ [])) (Tight-succ this k)
        ∙ ap (λ n. compiler_discriminants n variants) (value-succ this k)

    by_discriminant :
        ((n : List Token)
          → Tight n
          → evaluated (entries_from n variants) ≡ compiler_discriminants (value n) variants)
        → (d : Option (List Token)) → TightDiscriminant d
        → ◌≡◌ {A = List (String × ℕ)}
            ((variant.ident, value (this_discriminant next d))
              ∷ evaluated (entries_from (this_discriminant next d ++ (plus ∷ lit 1 ∷ [])) variants))
            ((variant.ident, compiler_value (value next) d)
              ∷ compiler_discriminants (compiler_value (value next) d + 1) variants)
    by_discriminant rest none k = ap (λ z. (variant.ident, value next) ∷ z) (step rest next t)
    by_discriminant rest (some e) k = ap (λ z. (variant.ident, value e) ∷ z) (step rest e k)

-- For variants with different names, whose explicit discriminants are literals or sums of
-- literals, the macro's tokens evaluate to the discriminants that the compiler assigns: one
-- more than the last where none is given.
pub discriminant_map-compiler_discriminants :
    {Ty : Type 0} (variants : List (Variant Ty))
    → DistinctVariants variants
    → TightVariants variants
    → evaluated (discriminant_map variants) ≡ compiler_discriminants 0 variants
unfolding value
discriminant_map-compiler_discriminants variants distinct tight =
    ap evaluated (discriminant_map-entries_from variants distinct)
    ∙ evaluated-entries_from (lit 0 ∷ []) variants tt tight

-- The values of the entries are the discriminants.
pub compiler_discriminants-entries_from :
    {Ty : Type 0} (variants : List (Variant Ty))
    → TightVariants variants
    → compiler_discriminants 0 variants ≡ evaluated (entries_from (lit 0 ∷ []) variants)
unfolding value
compiler_discriminants-entries_from variants tight =
    sym (evaluated-entries_from (lit 0 ∷ []) variants tt tight)
