-- ===== src/SchemaFormatTests.antt =====
-- The theorems on serialized schemas, for a stand-in for UTF-8: a character is written as as many
-- bytes 1 as its number, and a byte 0.
use Prim.Native.Nat.{Ordering, compare}
use Prim.Native.Char.{Char, char, code, nul, IsLt, IsScalar}
use Prim.Native.String.{String}
use text.Mathlib.Text.{◌==◌ as str_eq}
use text.Mathlib.TextEquality.{Char-path}
use borsh_rs.Prelude.{
  ℕ, zero, suc, ◌+◌, ◌-◌, ◌<◌, ◌^◌, ◌≡◌, refl, ap, inl, inr, ◌∙◌, Bool, true, List, [], ◌∷◌, ◌++◌,
  All, All-append, All-map, replicate, arith,
}
use borsh_rs.Num.{is_utf8-ascii}
use borsh_rs.Io.{ok, err, custom, invalid_data}
use borsh_rs.Io.Slice.{slice_read, vec_write}
use borsh_rs.Io.SliceLaws.{slice_read-IsRead, vec_write-IsWrite}
use borsh_rs.Ser.{try_to_vec}
use borsh_rs.Ser.Primitives.{uint_ser}
use borsh_rs.Ser.Laws.{uint_ser-IsSerialize}
use borsh_rs.De.{Target, try_from_slice}
use borsh_rs.De.Primitives.{uint_de}
use borsh_rs.De.Containers.{vec_de}
use borsh_rs.De.Compose.{vec_de-IsDeserialize}
use borsh_rs.Ser.Containers.{vec_ser}
use borsh_rs.Ser.Compose.{vec_ser-IsSerialize}
use borsh_rs.De.Reads.{uint_de-IsDeserialize}
use borsh_rs.Schema.{
  BorshSchema, BorshSchemaContainer, sequence, schema_container, lookup, define, add_definition,
  sequence_schema,
}
use borsh_rs.Schema.Types.{primitive, u16, vec, schema_of}
use borsh_rs.SchemaHelpers.{
  same_container, schema_does_not_match, try_from_slice_with_schema, try_to_vec_with_schema,
}
use borsh_rs.SchemaFormat.{Text, IsText, container_ser, container_de}
use borsh_rs.SchemaFormat.RoundTrip.{
  try_from_slice-container_ser, try_from_slice_with_schema-container_ser,
  try_from_slice_with_schema-Differ,
}

-- The clauses of `IsScalar`, whose helpers are private.
abbrev Second : Ordering → Ordering → Type 0
Second Ordering.lt o = IsLt o
Second Ordering.eq _ = ⊥
Second Ordering.gt _ = ⊥

abbrev Scalar : Ordering → Ordering → Ordering → Type 0
Scalar Ordering.lt _ _ = Unit
Scalar Ordering.eq o p = Second o p
Scalar Ordering.gt o p = Second o p

is_lt : (o : Ordering) → Dec (IsLt o)
is_lt Ordering.lt = yes tt
is_lt Ordering.eq = no (λ h. h)
is_lt Ordering.gt = no (λ h. h)

is_second : (o p : Ordering) → Dec (Second o p)
is_second Ordering.lt p = is_lt p
is_second Ordering.eq p = no (λ h. h)
is_second Ordering.gt p = no (λ h. h)

is_scalar : (o p q : Ordering) → Dec (Scalar o p q)
is_scalar Ordering.lt p q = yes tt
is_scalar Ordering.eq p q = is_second p q
is_scalar Ordering.gt p q = is_second p q

char_or_nul : (n : ℕ) → Dec (IsScalar n) → Char
char_or_nul n (yes h) = char n h
char_or_nul n (no f) = nul

char_or_nul-code : (c : Char) (d : Dec (IsScalar (code c))) → char_or_nul (code c) d ≡ c
unfolding char_or_nul
char_or_nul-code c (yes h) = Char-path (char (code c) h) c refl
char_or_nul-code (char n p) (no f) = absurd (f p)

numbered : ℕ → Char
unfolding char_or_nul
numbered n = char_or_nul n (is_scalar (compare n 55296) (compare 57343 n) (compare n 1114112))

unary : String → List ℕ
unary String.[] = []
unary (String.◌∷◌ c s) = replicate (code c) 1 ++ (0 ∷ unary s)

-- For the bytes 1 so far.
from_unary : ℕ → List ℕ → String
unfolding numbered
from_unary n [] = String.[]
from_unary n (zero ∷ bytes) = String.◌∷◌ (numbered n) (from_unary 0 bytes)
from_unary n (suc b ∷ bytes) = from_unary (suc n) bytes

from_unary-ones :
    (n k : ℕ) (bytes : List ℕ) → from_unary n (replicate k 1 ++ bytes) ≡ from_unary (n + k) bytes
unfolding from_unary
from_unary-ones n zero bytes = ap (λ z. from_unary z bytes) (omega arith)
from_unary-ones n (suc k) bytes =
    from_unary-ones (suc n) k bytes ∙ ap (λ z. from_unary z bytes) (omega arith)

numbered-code : (c : Char) → numbered (code c) ≡ c
unfolding numbered
numbered-code c =
    char_or_nul-code c
      (is_scalar (compare (code c) 55296) (compare 57343 (code c)) (compare (code c) 1114112))

from_unary-unary : (s : String) → from_unary 0 (unary s) ≡ s
unfolding from_unary unary
from_unary-unary String.[] = refl
from_unary-unary (String.◌∷◌ c s) =
    let same : 0 + code c ≡ code c = omega arith in
    from_unary-ones 0 (code c) (0 ∷ unary s)
    ∙ ap (λ z. from_unary z (0 ∷ unary s)) same
    ∙ rw (numbered-code c, from_unary-unary s) refl

ones-small : (k : ℕ) → All (λ b. b < 128) (replicate k 1)
ones-small zero = tt
ones-small (suc k) = (omega arith, ones-small k)

unary-small : (s : String) → All (λ b. b < 128) (unary s)
unfolding unary
unary-small String.[] = tt
unary-small (String.◌∷◌ c s) =
    All-append (λ b. b < 128) (replicate (code c) 1) (0 ∷ unary s) (ones-small (code c))
      (omega arith, unary-small s)

abbrev ones : Text
ones = record { as_bytes = unary; from_utf8 = from_unary 0 }

ones-IsText : IsText ones
ones-IsText = record {
  same = from_unary-unary;
  bytes = λ s. All-map (λ b h. omega (arith, h)) (unary s) (unary-small s);
  utf8 = λ s. is_utf8-ascii (unary s) (unary-small s);
}

abbrev machine64 : Target
machine64 = record { usize_max = 2 ^ 64 - 1 }

abbrev utf8_error : List ℕ → String
utf8_error bytes = "invalid utf-8 sequence"

abbrev sequence_container : BorshSchemaContainer
sequence_container = record {
  declaration = "V<a>";
  definitions = ("V<a>", sequence "a") ∷ ("B", sequence "a") ∷ [];
}

-- The order of texts is any test.
abbrev before : String → String → Bool
before a b = str_eq a "B"

try_from_slice-container_ser_example :
    (bytes : List ℕ) × (read : BorshSchemaContainer) × (try_to_vec
        (container_ser ones before)
        sequence_container
      ≡ ok bytes)
    × (try_from_slice (container_de ones utf8_error machine64) bytes ≡ ok read)
    × (same_container sequence_container read ≡ true)
unfolding unary lookup
try_from_slice-container_ser_example =
    try_from_slice-container_ser ones ones-IsText before utf8_error machine64 (omega arith)
      sequence_container (refl, (refl, tt))
      (omega arith, (omega arith, ((omega arith, omega arith), ((omega arith, omega arith), tt))))

try_from_slice_with_schema-container_ser_example :
    (bytes : List ℕ) × (try_to_vec_with_schema
        (schema_of (primitive u16))
        (container_ser ones before)
        (uint_ser 2)
        7
      ≡ ok bytes)
    × (try_from_slice_with_schema
          (schema_of (primitive u16))
          (container_de ones utf8_error machine64)
          (uint_de 2)
          80
          bytes
        ≡ ok 7)
unfolding unary schema_container schema_of
try_from_slice_with_schema-container_ser_example =
    try_from_slice_with_schema-container_ser ones ones-IsText before utf8_error machine64
      (omega arith) (uint_ser 2) (uint_de 2) (uint_ser-IsSerialize 2)
      (uint_de-IsDeserialize slice_read-IsRead 2 (omega arith)) 80 (schema_of (primitive u16))
      (record { declaration = "u16"; definitions = [] }) 7 refl tt (omega arith, (omega arith, tt))
      (omega arith)

-- Written as a `Vec<u16>` and read as a `Vec<u8>` with the declaration of the former: the declarations
-- are the same, and the definitions differ.
abbrev posing : BorshSchema
posing = define "Vec<u16>" (sequence "u8") (λ definitions. (ok tt, definitions))

try_from_slice_with_schema-Differ_example :
    (bytes : List ℕ) × (try_to_vec_with_schema
        (schema_of (vec (primitive u16)))
        (container_ser ones before)
        (vec_ser (uint_ser 2))
        (7 ∷ [])
      ≡ ok bytes)
    × (try_from_slice_with_schema posing
          (container_de ones utf8_error machine64)
          (vec_de (uint_de 2) machine64)
          104
          bytes
        ≡ err (custom invalid_data schema_does_not_match))
unfolding unary schema_container schema_of sequence_schema add_definition lookup
try_from_slice_with_schema-Differ_example =
    try_from_slice_with_schema-Differ ones ones-IsText before utf8_error machine64 (omega arith)
      (vec_ser (uint_ser 2)) (vec_de (uint_de 2) machine64)
      (vec_ser-IsSerialize vec_write-IsWrite (uint_ser-IsSerialize 2))
      (vec_de-IsDeserialize slice_read-IsRead
        (uint_de-IsDeserialize slice_read-IsRead 2 (omega arith)) machine64 (omega arith))
      104 (schema_of (vec (primitive u16))) posing
      (record { declaration = "Vec<u16>"; definitions = ("Vec<u16>", sequence "u16") ∷ [] })
      (record { declaration = "Vec<u16>"; definitions = ("Vec<u16>", sequence "u8") ∷ [] }) (7 ∷ [])
      refl refl (refl, tt) (omega arith, (omega arith, ((omega arith, omega arith), tt)))
      (inr (inr (inl (λ e. cc)))) (omega arith, (omega arith, tt))
