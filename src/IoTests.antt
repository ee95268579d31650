-- ===== src/IoTests.antt =====
-- The theorems on readers, writers and byte vectors at concrete inputs. `trickle` hands out one byte
-- at a time, like the reader of borsh/tests/test_custom_reader.rs that reads in small chunks.
use borsh_rs.Prelude.{
  ℕ, zero, suc, ◌-◌, ◌^◌, ◌≡◌, refl, sym, ap, append-nil, take-append_length, List, [], ◌∷◌, ◌++◌,
  some, arith, length,
}
use borsh_rs.Io.{M, Read, ok, err, custom, simple, not_connected, invalid_input, and_then}
use borsh_rs.Io.Slice.{Slice, MutSlice, slice_read, vec_write, write_vec, read_exact_slice}
use borsh_rs.Io.SliceLaws.{slice_read-IsRead, vec_write-IsWrite}
use borsh_rs.Io.Format.{fmt_error, write_fmt, write_pieces, formatted, write_fmt-write_all}
use borsh_rs.Io.Defaults.{default_read_exact, default_write_all}
use borsh_rs.Io.ReadExact.{ReadPart, default_read_exact-full}
use borsh_rs.Io.WriteAll.{WritePart, default_write_all-writes}
use borsh_rs.De.{Target, unexpected_length_of_input}
use borsh_rs.De.Bytes.{first_allocation, vec_from_reader_u8}
use borsh_rs.De.Bounded.{capped, vec_from_reader_u8-capped}
use borsh_rs.De.FillVec.{vec_from_reader_u8-returns}
use borsh_rs.De.Ends.{vec_from_reader_u8-short}

trickle : ℕ → M (List ℕ) (List ℕ)
trickle zero s = (ok [], s)
trickle (suc n) [] = (ok [], [])
trickle (suc n) (b ∷ bs) = (ok (b ∷ []), bs)

trickle-ReadPart : ReadPart trickle (λ s. s)
unfolding trickle
trickle-ReadPart zero s = ([], s, refl, refl, omega arith, λ h. absurd (omega arith))
trickle-ReadPart (suc n) [] = ([], [], refl, refl, omega arith, λ h k. k)
trickle-ReadPart (suc n) (b ∷ bs) = (b ∷ [], bs, refl, refl, omega arith, λ h k. omega arith)

default_read_exact-full_example :
    (bytes : List ℕ) × (s' : List ℕ) × (default_read_exact trickle 2 2 [] (7 ∷ 8 ∷ 9 ∷ [])
      ≡ (ok bytes, s'))
    × (7 ∷ 8 ∷ 9 ∷ [] ≡ bytes ++ s')
    × (length bytes ≡ 2)
default_read_exact-full_example =
    default_read_exact-full trickle (λ s. s) 2 (7 ∷ 8 ∷ 9 ∷ []) trickle-ReadPart (omega arith)

write_vec-WritePart : WritePart write_vec (λ w. w)
unfolding write_vec
write_vec-WritePart buf w h = (
  length buf,
  w ++ buf,
  refl,
  h,
  omega arith,
  ap (λ z. w ++ z) (sym (rw append-nil at (take-append_length buf []))),
)

abbrev start : MutSlice
start = record { stored = []; room = 3 }

abbrev target16 : Target
target16 = record { usize_max = 2 ^ 16 - 1 }

vec_from_reader_u8-returns_example :
    (s' : Slice) × (vec_from_reader_u8 target16 2 (7 ∷ 8 ∷ 9 ∷ []) ≡ (ok (some (7 ∷ 8 ∷ [])), s'))
    × (s' ≡ 9 ∷ [])
vec_from_reader_u8-returns_example =
    vec_from_reader_u8-returns target16 slice_read-IsRead 2 (7 ∷ 8 ∷ []) (9 ∷ []) (7 ∷ 8 ∷ 9 ∷ [])
      (omega arith) refl refl

abbrev three_bytes : Slice
three_bytes = 7 ∷ 8 ∷ 9 ∷ []

-- A reader that hands out one byte at a time, and fails at the end of its input.
flaky_read : ℕ → M (List ℕ) (List ℕ)
flaky_read zero s = (ok [], s)
flaky_read (suc n) [] = (err (simple not_connected), [])
flaky_read (suc n) (b ∷ bs) = (ok (b ∷ []), bs)

abbrev flaky : Read (List ℕ)
flaky = record { read = flaky_read; read_exact = read_exact_slice }

vec_from_reader_u8-short_example :
    (s' : Slice) × (vec_from_reader_u8 target16 5 three_bytes
      ≡ (err (custom invalid_input unexpected_length_of_input), s'))
vec_from_reader_u8-short_example =
    vec_from_reader_u8-short target16 slice_read-IsRead 5 three_bytes (omega arith) (omega arith)

default_write_all-writes_example :
    (w' : List ℕ) × (default_write_all write_vec 2 (7 ∷ 8 ∷ []) (6 ∷ []) ≡ (ok tt, w'))
    × (w' ≡ 6 ∷ 7 ∷ 8 ∷ [])
default_write_all-writes_example =
    default_write_all-writes write_vec (λ w. w) 2 (7 ∷ 8 ∷ []) (6 ∷ []) write_vec-WritePart
      (omega arith)

vec_from_reader_u8-capped_example :
    vec_from_reader_u8 ⦃rd = capped first_allocation slice_read⦄ target16 5 three_bytes
    ≡ vec_from_reader_u8 ⦃rd = slice_read⦄ target16 5 three_bytes
vec_from_reader_u8-capped_example =
    vec_from_reader_u8-capped slice_read target16 slice_read-IsRead first_allocation (omega arith) 5
      three_bytes (omega arith)

-- `write!(w, "{}{}", ..)`, whose second argument fails behind its text.
write_fmt-write_all_example :
    write_fmt (write_pieces ((1 ∷ 2 ∷ []) ∷ (3 ∷ []) ∷ []) fmt_error) []
    ≡ and_then (vec_write.write_all (1 ∷ 2 ∷ 3 ∷ []) []) (λ _. formatted fmt_error)
write_fmt-write_all_example =
    write_fmt-write_all vec_write-IsWrite (write_pieces ((1 ∷ 2 ∷ []) ∷ (3 ∷ []) ∷ []) fmt_error)
      ((1 ∷ 2 ∷ []) ∷ (3 ∷ []) ∷ []) fmt_error [] (λ s. refl)
