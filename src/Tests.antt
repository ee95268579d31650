-- ===== src/Tests.antt =====
-- The theorems at concrete inputs, and runs of the model.
use borsh_rs.Prelude.{ℕ, ◌-◌, ◌^◌, ◌≡◌, refl, List, [], ◌∷◌, ◌++◌, arith}
use borsh_rs.Num.{from_le_bytes, is_utf8}
use borsh_rs.Io.{ok}
use borsh_rs.Io.Slice.{
  Slice, slice_read, vec_write, write_all_vec, mut_write, read_slice, read_exact_slice,
}
use borsh_rs.Io.SliceLaws.{slice_read-IsRead}
use borsh_rs.Encoding.{encode_uint, encode_seq, IsUint, SeqValid}
use borsh_rs.Ser.Primitives.{is_nan32}
use borsh_rs.Ser.Containers.{error}
use borsh_rs.De.{BorshDeserialize, Target}
use borsh_rs.De.Primitives.{uint_de, deserialize_uint, deserialize_float}
use borsh_rs.De.Containers.{vec_de, deserialize_vec, deserialize_string, deserialize_result}
use borsh_rs.De.Bytes.{vec_from_reader_u8}
use Prim.Native.String.{String}
use borsh_rs.De.Bytes.{u8_de}
use borsh_rs.De.Wrappers.{BytesMut, deserialize_bytes_mut, deserialize_object_id}
use borsh_rs.De.Wrappers.Buffer.{IsBytesMut, map_ok, deserialize_bytes_mut-deserialize_vec}
use borsh_rs.Ser.Wrappers.{serialize_object_id}
use borsh_rs.De.Laws.{IsDeserialize}
use borsh_rs.De.Reads.{uint_de-IsDeserialize}
use borsh_rs.De.Compose.{vec_de-IsDeserialize}

abbrev target64 : Target
target64 = record { usize_max = 2 ^ 64 - 1 }

-- `Vec<u16>` over a slice and into a vector.
abbrev words_de : BorshDeserialize Slice (List ℕ)
words_de = vec_de (uint_de 2) target64

abbrev WordsValid : List ℕ → Type 0
WordsValid = SeqValid (IsUint 2)

abbrev words_enc : List ℕ → List ℕ
words_enc = encode_seq (encode_uint 2)

words_de-IsDeserialize : IsDeserialize (λ b. b) words_de WordsValid words_enc
words_de-IsDeserialize =
    vec_de-IsDeserialize slice_read-IsRead (uint_de-IsDeserialize slice_read-IsRead 2 (omega arith))
      target64 (omega arith)

abbrev two_words : List ℕ
two_words = 258 ∷ 3 ∷ []

abbrev two_words_bytes : List ℕ
two_words_bytes = 2 ∷ 0 ∷ 0 ∷ 0 ∷ 2 ∷ 1 ∷ 3 ∷ 0 ∷ []

deserialize_vec-run : deserialize_vec (uint_de 2) target64 two_words_bytes ≡ (ok two_words, [])
unfolding deserialize_vec read_exact_slice from_le_bytes
deserialize_vec-run = refl

-- `[u16; 2]`

abbrev no_text : List ℕ → String
no_text bytes = "invalid utf-8"

-- "hé"
abbrev text : List ℕ
text = 0x68 ∷ 0xc3 ∷ 0xa9 ∷ []

abbrev text_bytes : List ℕ
text_bytes = 3 ∷ 0 ∷ 0 ∷ 0 ∷ 0x68 ∷ 0xc3 ∷ 0xa9 ∷ []

-- `Err(5)`, and the float 1.
abbrev failure_bytes : List ℕ
failure_bytes = 0 ∷ 5 ∷ []

abbrev one_bytes : List ℕ
one_bytes = 0 ∷ 0 ∷ 0x80 ∷ 0x3f ∷ []

abbrev no_bytes : List ℕ
no_bytes = []

deserialize_string-run : deserialize_string no_text target64 text_bytes ≡ (ok text, [])
unfolding deserialize_string read_exact_slice read_slice from_le_bytes is_utf8 vec_from_reader_u8
deserialize_string-run = refl

deserialize_result-run :
    deserialize_result (uint_de 2) (uint_de 1) failure_bytes ≡ (ok (error 5), [])
unfolding deserialize_result deserialize_uint read_exact_slice from_le_bytes
deserialize_result-run = refl

-- 1.0, as an f32.
deserialize_float-run : deserialize_float is_nan32 4 one_bytes ≡ (ok 0x3f80_0000, [])
unfolding deserialize_float read_exact_slice from_le_bytes
deserialize_float-run = refl

-- A vector for writing.

-- A buffer that is a list.
abbrev list_buffer : BytesMut (List ℕ)
list_buffer = record {
  with_capacity = λ n. [];
  put_u8 = λ out b. out ++ (b ∷ []);
  as_ref = λ out. out;
}

list_buffer-IsBytesMut : IsBytesMut list_buffer
list_buffer-IsBytesMut = record { starts_empty = λ n. refl; puts = λ out b. refl }

deserialize_bytes_mut-deserialize_vec_example :
    map_ok (λ out. out) (deserialize_bytes_mut {R = Slice} list_buffer (2 ∷ 0 ∷ 0 ∷ 0 ∷ 7 ∷ [])).0
    ≡ (deserialize_vec {R = Slice} (u8_de target64) target64 (2 ∷ 0 ∷ 0 ∷ 0 ∷ 7 ∷ [])).0
deserialize_bytes_mut-deserialize_vec_example =
    deserialize_bytes_mut-deserialize_vec slice_read-IsRead list_buffer-IsBytesMut target64
      (omega arith) (2 ∷ 0 ∷ 0 ∷ 0 ∷ 7 ∷ [])
      (omega arith, (omega arith, (omega arith, (omega arith, (omega arith, tt)))))

-- An object id is its 12 bytes.
object_id-bytes :
    serialize_object_id {W = List ℕ}
      (λ o. o)
      (1 ∷ 2 ∷ 3 ∷ 4 ∷ 5 ∷ 6 ∷ 7 ∷ 8 ∷ 9 ∷ 10 ∷ 11 ∷ 12 ∷ [])
      []
    ≡ (ok tt, 1 ∷ 2 ∷ 3 ∷ 4 ∷ 5 ∷ 6 ∷ 7 ∷ 8 ∷ 9 ∷ 10 ∷ 11 ∷ 12 ∷ [])
unfolding serialize_object_id write_all_vec
object_id-bytes = refl

object_id-read :
    deserialize_object_id {R = Slice}
      (λ o. o)
      (1 ∷ 2 ∷ 3 ∷ 4 ∷ 5 ∷ 6 ∷ 7 ∷ 8 ∷ 9 ∷ 10 ∷ 11 ∷ 12 ∷ 13 ∷ [])
    ≡ (ok (1 ∷ 2 ∷ 3 ∷ 4 ∷ 5 ∷ 6 ∷ 7 ∷ 8 ∷ 9 ∷ 10 ∷ 11 ∷ 12 ∷ []), 13 ∷ [])
unfolding deserialize_object_id read_exact_slice
object_id-read = refl
