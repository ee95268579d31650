-- ===== src/Derive/Enum/Spec.antt =====
-- borsh-derive-internal/src/enum_ser.rs and borsh-derive-internal/src/enum_de.rs: the values of an
-- enum apart from how they are written and read.
use Prim.Native.String.{String}
use borsh_rs.Prelude.{ℕ, ◌<◌, ◌≡◌, false, List, [], ◌∷◌, All, inl, inr, ◌==◌}
use package.borsh_rs.Derive.Code.{field_list}
use package.borsh_rs.Derive.Kept.{not_skipped, encode_kept, KeptValid, restored}
use package.borsh_rs.Derive.Discriminants.{Variant}
use package.borsh_rs.Derive.Enum.Run.{EnumValue}

-- The tags: what the entries of the discriminant map come to.
abbrev pub Tags : Type 0
Tags = List (String × ℕ)

-- Each is a byte.
abbrev pub TagsFit : Tags → Type 0
TagsFit tags = All (λ tag. tag.1 < 256) tags

-- A variant's tag, and its kept fields.
abbrev pub encode_enum :
    {Ty : Type 0} {El : Ty → Type 0}
    → ((a : Ty) → El a → List ℕ)
    → Tags
    → (variants : List (Variant Ty)) → EnumValue El variants
    → List ℕ
encode_enum enc tags [] x = absurd x
encode_enum enc [] (variant ∷ variants) x = []
encode_enum enc (tag ∷ tags) (variant ∷ variants) (inl v) =
    tag.1 ∷ encode_kept not_skipped enc (field_list variant.fields) v
encode_enum enc (tag ∷ tags) (variant ∷ variants) (inr x) = encode_enum enc tags variants x

abbrev pub EnumValid :
    {Ty : Type 0} {El : Ty → Type 0}
    → ((a : Ty) → El a → Type 0)
    → (variants : List (Variant Ty)) → EnumValue El variants
    → Type 0
EnumValid Valid [] x = ⊥
EnumValid Valid (variant ∷ variants) (inl v) =
    KeptValid not_skipped Valid (field_list variant.fields) v
EnumValid Valid (variant ∷ variants) (inr x) = EnumValid Valid variants x

abbrev pub enum_restored :
    {Ty : Type 0} {El : Ty → Type 0}
    → ((a : Ty) → El a)
    → (variants : List (Variant Ty)) → EnumValue El variants
    → EnumValue El variants
enum_restored default_of [] x = absurd x
enum_restored default_of (variant ∷ variants) (inl v) =
    inl (restored not_skipped default_of (field_list variant.fields) v)
enum_restored default_of (variant ∷ variants) (inr x) = inr (enum_restored default_of variants x)

-- The tags are different bytes, as the compiler wants it.
abbrev pub TagsDistinct : Tags → Type 0
TagsDistinct [] = Unit
TagsDistinct (tag ∷ tags) = All (λ later. (later.1 == tag.1) ≡ false) tags × TagsDistinct tags

-- The tag of a value.
abbrev pub tag_of :
    {Ty : Type 0} (El : Ty → Type 0)
    → Tags
    → (variants : List (Variant Ty)) → EnumValue El variants
    → ℕ
tag_of El tags [] x = absurd x
tag_of El [] (variant ∷ variants) x = 0
tag_of El (tag ∷ tags) (variant ∷ variants) (inl v) = tag.1
tag_of El (tag ∷ tags) (variant ∷ variants) (inr x) = tag_of El tags variants x

-- Its fields.
abbrev pub encode_fields :
    {Ty : Type 0} {El : Ty → Type 0}
    → ((a : Ty) → El a → List ℕ)
    → (variants : List (Variant Ty)) → EnumValue El variants
    → List ℕ
encode_fields enc [] x = absurd x
encode_fields enc (variant ∷ variants) (inl v) =
    encode_kept not_skipped enc (field_list variant.fields) v
encode_fields enc (variant ∷ variants) (inr x) = encode_fields enc variants x
