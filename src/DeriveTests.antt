-- ===== src/DeriveTests.antt =====
-- The theorems on derived implementations: a struct with a skipped field and a method to call, and an
-- enum with discriminants and a variant of each kind.
use Prim.Native.String.{String}
use borsh_rs.Prelude.{
  ℕ, ◌-◌, ◌^◌, ◌≡◌, refl, Bool, true, false, List, [], ◌∷◌, some, none, arith, if◌then◌else◌, inl,
  inr,
}
use borsh_rs.Io.{ok, err, custom, invalid_input}
use borsh_rs.Io.Slice.{vec_write, slice_read}
use borsh_rs.Io.SliceLaws.{slice_read-IsRead, vec_write-IsWrite}
use borsh_rs.Num.{to_le_bytes, is_utf8, decimal_u8}
use borsh_rs.Ser.Laws.{IsSerialize}
use borsh_rs.De.Laws.{IsDeserialize}
use borsh_rs.Shape.{
  Shape, uint, string, b2, El, encode, IsValid, Platform, IsPlatform, ser, de, zero_sized,
}
use borsh_rs.Shape.Writes.{ser-IsSerialize}
use borsh_rs.Shape.Reads.{de-IsDeserialize}
use borsh_rs.Derive.{
  Attribute, NestedMeta, named, unnamed, unit, ItemStruct, contains_skip, contains_initialize_with,
}
use borsh_rs.Derive.Code.{Values, field_list, names}
use borsh_rs.Derive.Struct.{struct_ser, struct_de, run_struct_ser, run_struct_de}
use borsh_rs.Derive.Struct.Laws.{struct_ser-encode_kept, struct_de-restored}
use borsh_rs.Derive.Discriminants.{lit, shl, discriminant_map, value}
use borsh_rs.Derive.Discriminants.Laws.{evaluated, discriminant_map-compiler_discriminants}
use borsh_rs.Derive.Enum.{ItemEnum, enum_ser, enum_de}
use borsh_rs.Derive.Enum.Run.{run_enum_ser, run_enum_de}
use borsh_rs.Derive.Enum.Writes.{enum_ser-encode_enum}
use borsh_rs.Derive.Enum.Reads.{enum_de-enum_restored, enum_de-unexpected_tag}

abbrev pub machine64 : Platform
machine64 = record {
  target = record { usize_max = 2 ^ 64 - 1 };
  layout = λ a. if zero_sized a then 0 else 8;
  utf8_error = λ bytes. "invalid utf-8 sequence";
}

machine64-IsPlatform : IsPlatform machine64
machine64-IsPlatform = record { sized = λ a. only (zero_sized a); wide = omega arith }
  where
    only : (b : Bool) → ◌≡◌ {A = ℕ} (if b then 0 else 8) 0 → b ≡ true
    only true h = refl
    only false h = absurd (omega arith)

-- The types of the fields: `String` and `u16`.
abbrev pub shape_of : Bool → Shape
shape_of true = string
shape_of false = uint b2

abbrev Value : Bool → Type 0
Value a = El (shape_of a)

abbrev pub default_of : (a : Bool) → Value a
default_of true = []
default_of false = 0

pub writes :
    (a : Bool)
    → IsSerialize vec_write
        (ser (shape_of a))
        (IsValid machine64.target (shape_of a))
        (encode (shape_of a))
writes a = ser-IsSerialize vec_write-IsWrite machine64.target (shape_of a)

pub reads :
    (a : Bool)
    → IsDeserialize
        (λ s. s)
        (de machine64 (shape_of a))
        (IsValid machine64.target (shape_of a))
        (encode (shape_of a))
reads a = de-IsDeserialize slice_read-IsRead machine64 machine64-IsPlatform (shape_of a)

-- `#[borsh_init(init)] struct Row { x: u16, #[borsh_skip] label: String, y: u16 }`
abbrev row : ItemStruct Bool
row = record {
  attrs = Attribute.list "borsh_init" (NestedMeta.path "init" ∷ []) ∷ [];
  predicates = [];
  fields = named (
      record { ident = "x"; attrs = []; ty = false }
      ∷ record { ident = "label"; attrs = Attribute.path "borsh_skip" ∷ []; ty = true }
      ∷ record { ident = "y"; attrs = []; ty = false }
      ∷ []);
}

-- Its method `init` puts 9 in `y`.
abbrev row_methods :
    String → Values Value (field_list row.fields) → Values Value (field_list row.fields)
row_methods method (x, (label, (y, end))) = (x, (label, (9, end)))

struct_ser-encode_kept_example :
    run_struct_ser
      (λ a. ser (shape_of a))
      row.fields
      (struct_ser row)
      (258, (0x68 ∷ [], (3, tt)))
      []
    ≡ vec_write.write_all (2 ∷ 1 ∷ 3 ∷ 0 ∷ []) []
unfolding to_le_bytes contains_skip names
struct_ser-encode_kept_example =
    struct_ser-encode_kept vec_write-IsWrite writes row (258, (0x68 ∷ [], (3, tt))) []
      ((refl, (refl, tt)), ((refl, tt), (tt, tt)))
      ((λ k. omega arith), ((λ k. cc), ((λ k. omega arith), tt)))

struct_de-restored_example :
    (s' : List ℕ) × (run_struct_de
        (λ a. de machine64 (shape_of a))
        default_of
        row.fields
        row_methods
        (struct_de row)
        (2 ∷ 1 ∷ 3 ∷ 0 ∷ 7 ∷ [])
      ≡ (ok (258, ([], (9, tt))), s'))
    × (s' ≡ 7 ∷ [])
unfolding to_le_bytes contains_skip contains_initialize_with
struct_de-restored_example =
    struct_de-restored slice_read-IsRead default_of reads row row_methods (some "init")
      (258, (0x68 ∷ [], (3, tt))) (2 ∷ 1 ∷ 3 ∷ 0 ∷ 7 ∷ []) (7 ∷ []) refl
      ((λ k. omega arith), ((λ k. cc), ((λ k. omega arith), tt))) refl

-- `enum Message { Move { x: u16 } = 3, Write(String, #[borsh_skip] u16), Quit }`
abbrev message : ItemEnum Bool
message = record {
  attrs = [];
  predicates = [];
  variants =
      record {
        ident = "Move";
        discriminant = some (lit 3 ∷ []);
        fields = named (record { ident = "x"; attrs = []; ty = false } ∷ []);
      }
      ∷ record {
        ident = "Write";
        discriminant = none;
        fields = unnamed (
            record { ident = ""; attrs = []; ty = true }
            ∷ record { ident = ""; attrs = Attribute.path "borsh_skip" ∷ []; ty = false }
            ∷ []);
      }
      ∷ record { ident = "Quit"; discriminant = none; fields = unit }
      ∷ [];
}

discriminant_map-compiler_discriminants_example :
    evaluated (discriminant_map message.variants) ≡ ("Move", 3) ∷ ("Write", 4) ∷ ("Quit", 5) ∷ []
unfolding value
discriminant_map-compiler_discriminants_example =
    discriminant_map-compiler_discriminants message.variants
      ((refl, (refl, tt)), ((refl, tt), (tt, tt))) (tt, (tt, (tt, tt)))

-- Behind `A = 1 << 3` the macro gives 16, where the compiler assigns 9.
behind_shift :
    evaluated (
      discriminant_map {Ty = Bool} (
        record { ident = "A"; discriminant = some (lit 1 ∷ shl ∷ lit 3 ∷ []); fields = unit }
        ∷ record { ident = "B"; discriminant = none; fields = unit }
        ∷ []))
    ≡ ("A", 8) ∷ ("B", 16) ∷ []
unfolding evaluated discriminant_map value
behind_shift = refl

enum_ser-encode_enum_example :
    run_enum_ser
      (λ a. ser (shape_of a))
      message.variants
      (enum_ser message)
      (inr (inl (0x68 ∷ [], (7, tt))))
      []
    ≡ vec_write.write_all (4 ∷ 1 ∷ 0 ∷ 0 ∷ 0 ∷ 0x68 ∷ []) []
unfolding to_le_bytes contains_skip names is_utf8 evaluated discriminant_map value
enum_ser-encode_enum_example =
    enum_ser-encode_enum vec_write-IsWrite writes message (inr (inl (0x68 ∷ [], (7, tt)))) []
      ((refl, (refl, tt)), ((refl, tt), (tt, tt))) (tt, (tt, (tt, tt)))
      (((refl, refl), tt), (tt, (tt, tt))) (omega arith, (omega arith, (omega arith, tt)))
      ((tt, tt), (tt, (tt, tt))) ((λ k. ((omega arith, (omega arith, tt)), refl)), ((λ k. cc), tt))

enum_de-enum_restored_example :
    (s' : List ℕ) × (run_enum_de
        (λ a. de machine64 (shape_of a))
        default_of
        message.variants
        (λ method x. x)
        (enum_de message)
        (4 ∷ 1 ∷ 0 ∷ 0 ∷ 0 ∷ 0x68 ∷ 9 ∷ [])
      ≡ (ok (inr (inl (0x68 ∷ [], (0, tt)))), s'))
    × (s' ≡ 9 ∷ [])
unfolding to_le_bytes contains_skip contains_initialize_with is_utf8 evaluated discriminant_map
    value
enum_de-enum_restored_example =
    enum_de-enum_restored slice_read-IsRead default_of reads message (λ method x. x) none
      (inr (inl (0x68 ∷ [], (7, tt)))) (4 ∷ 1 ∷ 0 ∷ 0 ∷ 0 ∷ 0x68 ∷ 9 ∷ []) (9 ∷ []) refl
      ((refl, (refl, tt)), ((refl, tt), (tt, tt))) (tt, (tt, (tt, tt)))
      (omega arith, (omega arith, (omega arith, tt))) ((refl, (refl, tt)), ((refl, tt), (tt, tt)))
      ((λ k. ((omega arith, (omega arith, tt)), refl)), ((λ k. cc), tt)) refl

enum_de-unexpected_tag_example :
    (s' : List ℕ) × (run_enum_de
        (λ a. de machine64 (shape_of a))
        default_of
        message.variants
        (λ method x. x)
        (enum_de message)
        (6 ∷ 9 ∷ [])
      ≡ (err (custom invalid_input "Unexpected variant tag: 6"), s'))
    × (s' ≡ 9 ∷ [])
unfolding evaluated discriminant_map value contains_initialize_with decimal_u8
enum_de-unexpected_tag_example =
    enum_de-unexpected_tag slice_read-IsRead default_of reads message (λ method x. x) none 6
      (6 ∷ 9 ∷ []) (9 ∷ []) refl ((refl, (refl, tt)), ((refl, tt), (tt, tt))) (tt, (tt, (tt, tt)))
      (omega arith, (omega arith, (omega arith, tt))) (refl, (refl, (refl, tt))) refl
