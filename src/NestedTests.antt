-- ===== src/NestedTests.antt =====
-- The theorems on vectors of derived types, for a struct and an enum with a variant of each kind.
use borsh_rs.Prelude.{ℕ, ◌≡◌, refl, Bool, true, false, List, [], ◌∷◌, some, none, arith, inl, inr}
use borsh_rs.Io.{ok}
use borsh_rs.Io.Slice.{vec_write, slice_read}
use borsh_rs.Num.{is_utf8}
use borsh_rs.Shape.{ser, de}
use borsh_rs.Derive.{named, unnamed, unit, ItemStruct, contains_skip, contains_initialize_with}
use borsh_rs.Derive.Code.{names}
use borsh_rs.Derive.Discriminants.{lit, discriminant_map, value}
use borsh_rs.Derive.Discriminants.Laws.{evaluated}
use borsh_rs.Derive.Enum.{ItemEnum}
use borsh_rs.Ser.{try_to_vec}
use borsh_rs.Ser.Containers.{vec_ser}
use borsh_rs.De.{try_from_slice}
use borsh_rs.De.Containers.{vec_de}
use borsh_rs.Derive.Nested.{
  derived_struct_ser, derived_enum_ser, derived_struct_de, derived_enum_de,
}
use borsh_rs.Derive.Nested.RoundTrip.{
  try_from_slice-derived_struct_ser, try_from_slice-derived_enum_ser,
}
use borsh_rs.DeriveTests.{machine64, shape_of, default_of, writes, reads}

-- `struct Point { x: u16, label: String }`
abbrev point : ItemStruct Bool
point = record {
  attrs = [];
  predicates = [];
  fields = named (
      record { ident = "x"; attrs = []; ty = false }
      ∷ record { ident = "label"; attrs = []; ty = true }
      ∷ []);
}

-- `enum Order { Move { x: u16 } = 3, Write(String), Quit }`
abbrev order : ItemEnum Bool
order = record {
  attrs = [];
  predicates = [];
  variants =
      record {
        ident = "Move";
        discriminant = some (lit 3 ∷ []);
        fields = named (record { ident = "x"; attrs = []; ty = false } ∷ []);
      }
      ∷ record {
        ident = "Write";
        discriminant = none;
        fields = unnamed (record { ident = ""; attrs = []; ty = true } ∷ []);
      }
      ∷ record { ident = "Quit"; discriminant = none; fields = unit }
      ∷ [];
}

try_from_slice-derived_struct_ser_example :
    (bytes : List ℕ) × (try_to_vec
        (vec_ser (derived_struct_ser (λ a. ser (shape_of a)) point))
        ((258, (0x68 ∷ [], tt)) ∷ (7, ([], tt)) ∷ [])
      ≡ ok bytes)
    × (try_from_slice
          (vec_de
            (derived_struct_de (λ a. de machine64 (shape_of a)) default_of point 32)
            machine64.target)
          bytes
        ≡ ok ((258, (0x68 ∷ [], tt)) ∷ (7, ([], tt)) ∷ []))
unfolding contains_skip contains_initialize_with is_utf8 names
try_from_slice-derived_struct_ser_example =
    try_from_slice-derived_struct_ser default_of writes reads 32 (λ e. omega arith) machine64.target
      (omega arith) point ((258, (0x68 ∷ [], tt)) ∷ (7, ([], tt)) ∷ []) ((refl, tt), (tt, tt)) refl
      (refl, (refl, tt))
      (
        omega arith,
        (
          ((λ k. omega arith), ((λ k. ((omega arith, (omega arith, tt)), refl)), tt)),
          (((λ k. omega arith), ((λ k. ((omega arith, tt), refl)), tt)), tt),
        ),
      )

try_from_slice-derived_enum_ser_example :
    (bytes : List ℕ) × (try_to_vec
        (vec_ser (derived_enum_ser (λ a. ser (shape_of a)) order))
        (inr (inl (0x68 ∷ [], tt)) ∷ inr (inr (inl tt)) ∷ [])
      ≡ ok bytes)
    × (try_from_slice
          (vec_de
            (derived_enum_de (λ a. de machine64 (shape_of a)) default_of order 32)
            machine64.target)
          bytes
        ≡ ok (inr (inl (0x68 ∷ [], tt)) ∷ inr (inr (inl tt)) ∷ []))
unfolding contains_skip contains_initialize_with is_utf8 evaluated discriminant_map value names
try_from_slice-derived_enum_ser_example =
    try_from_slice-derived_enum_ser default_of writes reads 32 (λ e. omega arith) machine64.target
      (omega arith) order (inr (inl (0x68 ∷ [], tt)) ∷ inr (inr (inl tt)) ∷ [])
      ((refl, (refl, tt)), ((refl, tt), (tt, tt))) (tt, (tt, (tt, tt)))
      (omega arith, (omega arith, (omega arith, tt))) ((refl, (refl, tt)), ((refl, tt), (tt, tt)))
      ((tt, tt), (tt, (tt, tt))) refl (((refl, refl), tt), (tt, (tt, tt)))
      ((refl, tt), ((refl, tt), (tt, tt)))
      (omega arith, (((λ k. ((omega arith, (omega arith, tt)), refl)), tt), (tt, tt)))
