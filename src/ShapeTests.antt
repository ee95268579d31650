-- ===== src/ShapeTests.antt =====
-- The theorems on types with a shape at `Vec<Option<(u16, String)>>`, on a machine of 64 bits.
use borsh_rs.Prelude.{
  ℕ, ◌-◌, ◌^◌, ◌≡◌, ◌≢◌, ◌↔◌, refl, Bool, true, false, List, [], ◌∷◌, ◌++◌, some, none, arith,
  if◌then◌else◌,
}
use borsh_rs.Io.{ok, err, custom, invalid_data}
use borsh_rs.Io.Slice.{vec_write, slice_read, read_slice, read_exact_slice}
use borsh_rs.Io.SliceLaws.{slice_read-IsRead, vec_write-IsWrite}
use borsh_rs.Num.{to_le_bytes, from_le_bytes, is_utf8}
use borsh_rs.Ser.{try_to_vec}
use borsh_rs.De.Containers.{
  deserialize_vec, deserialize_option, deserialize_tuple, deserialize_string,
}
use borsh_rs.De.Bytes.{vec_from_reader_u8}
use borsh_rs.De.{try_from_slice, not_all_bytes_read}
use borsh_rs.Shape.{
  Shape, vec, option, pair, uint, string, b2, El, encode, IsValid, Platform, IsPlatform, ser, de,
  zero_sized,
}
use borsh_rs.Shape.RoundTrip.{
  de-encode_iff, de-try_to_vec_iff, de-try_to_vec, de-trailing, de-truncated, ser-write_all,
  de-consumed,
}

abbrev machine64 : Platform
machine64 = record {
  target = record { usize_max = 2 ^ 64 - 1 };
  layout = λ a. if zero_sized a then 0 else 8;
  utf8_error = λ bytes. "invalid utf-8 sequence";
}

machine64-IsPlatform : IsPlatform machine64
machine64-IsPlatform = record { sized = λ a. only (zero_sized a); wide = omega arith }
  where
    only : (b : Bool) → ◌≡◌ {A = ℕ} (if b then 0 else 8) 0 → b ≡ true
    only true h = refl
    only false h = absurd (omega arith)

abbrev rows : Shape
rows = vec (option (pair (uint b2) string))

abbrev two_rows : El rows
two_rows = some (258, 0x68 ∷ []) ∷ none ∷ []

abbrev front_bytes : List ℕ
front_bytes = 2 ∷ 0 ∷ 0 ∷ 0 ∷ 1 ∷ 2 ∷ 1 ∷ 1 ∷ 0 ∷ 0 ∷ 0 ∷ 0x68 ∷ []

abbrev two_rows_bytes : List ℕ
two_rows_bytes = front_bytes ++ (0 ∷ [])

two_rows-IsValid : IsValid machine64.target rows two_rows
unfolding is_utf8
two_rows-IsValid =
    (omega arith, ((omega arith, ((omega arith, (omega arith, tt)), refl)), (tt, tt)))

de-encode_iff_example :
    (try_from_slice (de machine64 rows) two_rows_bytes ≡ ok two_rows)
    ↔ ((two_rows_bytes ≡ encode rows two_rows) × IsValid machine64.target rows two_rows)
de-encode_iff_example =
    de-encode_iff machine64 machine64-IsPlatform rows two_rows_bytes two_rows (omega arith)

de-try_to_vec_iff_example : (try_from_slice (de machine64 rows) two_rows_bytes ≡ ok two_rows) ↔ (
    (try_to_vec (ser rows) two_rows ≡ ok two_rows_bytes) × IsValid machine64.target rows two_rows)
de-try_to_vec_iff_example =
    de-try_to_vec_iff machine64 machine64-IsPlatform rows two_rows_bytes two_rows (omega arith)

de-try_to_vec_example :
    (bytes : List ℕ) × (try_to_vec (ser rows) two_rows ≡ ok bytes)
    × (try_from_slice (de machine64 rows) bytes ≡ ok two_rows)
de-try_to_vec_example = de-try_to_vec machine64 machine64-IsPlatform rows two_rows two_rows-IsValid

de-trailing_example :
    try_from_slice (de machine64 rows) (encode rows two_rows ++ (7 ∷ []))
    ≡ err (custom invalid_data not_all_bytes_read)
de-trailing_example = de-trailing machine64 machine64-IsPlatform rows two_rows 7 [] two_rows-IsValid

de-truncated_example : try_from_slice (de machine64 rows) front_bytes ≢ ok two_rows
unfolding to_le_bytes
de-truncated_example =
    de-truncated machine64 machine64-IsPlatform rows two_rows two_rows front_bytes 0 []
      two_rows-IsValid (omega arith) refl

ser-write_all_example : (ser rows).serialize two_rows [] ≡ vec_write.write_all two_rows_bytes []
unfolding to_le_bytes
ser-write_all_example =
    ser-write_all machine64 machine64-IsPlatform vec_write-IsWrite rows two_rows [] two_rows-IsValid

rows-run :
    (de machine64 rows).deserialize_reader (two_rows_bytes ++ (9 ∷ [])) ≡ (ok two_rows, 9 ∷ [])
unfolding deserialize_vec deserialize_option deserialize_tuple deserialize_string read_exact_slice
    read_slice from_le_bytes is_utf8 vec_from_reader_u8
rows-run = refl

de-consumed_example :
    (two_rows_bytes ++ (9 ∷ []) ≡ encode rows two_rows ++ (9 ∷ []))
    × IsValid machine64.target rows two_rows
de-consumed_example =
    de-consumed machine64 machine64-IsPlatform slice_read-IsRead rows (two_rows_bytes ++ (9 ∷ []))
      two_rows (9 ∷ []) (omega arith) rows-run
