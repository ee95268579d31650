-- ===== src/Derive/Whole.antt =====
-- borsh-derive-internal/src: items without a skipped field.
use borsh_rs.Prelude.{◌≡◌, refl, ap, Bool, true, false, List, [], ◌∷◌, All, inl, inr}
use borsh_rs.Io.Slice.{slice_read, vec_write}
use package.borsh_rs.Derive.{Field, Fields, named, unnamed, unit, contains_skip}
use package.borsh_rs.Derive.Code.{Values, field_list}
use package.borsh_rs.Derive.Kept.{restored, not_skipped}
use package.borsh_rs.Derive.Struct.Laws.{kept}
use package.borsh_rs.Derive.Discriminants.{Variant}
use package.borsh_rs.Derive.Enum.Run.{EnumValue}
use package.borsh_rs.Derive.Enum.Spec.{enum_restored}

-- No field has `borsh_skip`.
abbrev pub NothingSkipped : {Ty : Type 0} → Fields Ty → Type 0
NothingSkipped fields = All (λ field. contains_skip field.attrs ≡ false) (field_list fields)

pub restored-kept :
    {Ty : Type 0} (keep : Field Ty → Bool) {El : Ty → Type 0} (default_of : (a : Ty) → El a)
    (fields : List (Field Ty)) (v : Values El fields)
    → All (λ field. keep field ≡ true) fields
    → restored keep default_of fields v ≡ v
restored-kept keep default_of [] v h = refl
restored-kept keep default_of (field ∷ fields) (v, vs) h =
    rw h.0 (ap (λ z. (v, z)) (restored-kept keep default_of fields vs h.1))

pub not_skipped_all :
    {Ty : Type 0} (fields : List (Field Ty))
    → All (λ field. contains_skip field.attrs ≡ false) fields
    → All (λ field. not_skipped field ≡ true) fields
not_skipped_all [] h = tt
not_skipped_all (field ∷ fields) h = (rw h.0 refl, not_skipped_all fields h.1)

nothing_lost :
    {Ty : Type 0} (fields : List (Field Ty)) → All (λ field. ◌≡◌ {A = Bool} true true) fields
nothing_lost [] = tt
nothing_lost (field ∷ fields) = (refl, nothing_lost fields)

pub kept_all :
    {Ty : Type 0} (fields : Fields Ty)
    → NothingSkipped fields
    → All (λ field. kept fields field ≡ true) (field_list fields)
kept_all (named fields) h = not_skipped_all fields h
kept_all (unnamed fields) h = nothing_lost fields
kept_all unit h = tt

pub enum_restored-kept :
    {Ty : Type 0} {El : Ty → Type 0} (default_of : (a : Ty) → El a) (variants : List (Variant Ty))
    (x : EnumValue El variants)
    → All (λ variant. NothingSkipped variant.fields) variants
    → enum_restored default_of variants x ≡ x
enum_restored-kept default_of [] x h = absurd x
enum_restored-kept default_of (variant ∷ variants) (inl v) h = ap inl (
    restored-kept not_skipped default_of (field_list variant.fields) v
      (not_skipped_all (field_list variant.fields) h.0))
enum_restored-kept default_of (variant ∷ variants) (inr x) h =
    ap inr (enum_restored-kept default_of variants x h.1)
