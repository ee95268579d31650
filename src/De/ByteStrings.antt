-- ===== src/De/ByteStrings.antt =====
-- borsh/src/de/mod.rs: bytes, arrays of bytes and strings.
use borsh_rs.Prelude.{ℕ, ◌+◌, ◌≤◌, ◌^◌, ◌≡◌, refl, ap, inr, true, List, [], ◌∷◌, length, arith}
use Prim.Native.String.{String}
use borsh_rs.Num.{is_utf8}
use borsh_rs.Io.{Read}
use borsh_rs.Io.Laws.{IsRead, Reads, Reads-map}
use borsh_rs.Encoding.{encode_u8, encode_seq, encode_items, IsUint, SeqValid}
use package.borsh_rs.De.{Target, read_exact_or}
use package.borsh_rs.De.Laws.{IsDeserialize, read_exact_or-Reads}
use package.borsh_rs.De.Reads.{deserialize_u8-Reads}
use package.borsh_rs.De.FillVec.{vec_from_reader_u8-Reads}
use package.borsh_rs.De.Compose.{deserialize_vec-Reads}
use package.borsh_rs.De.Bytes.{array_from_reader_u8, u8_de}
use package.borsh_rs.De.Containers.{deserialize_vec, deserialize_string}

module _ {R : Type 0} ⦃rd : Read R⦄ {view : R → List ℕ} (law : IsRead rd view) (t : Target)
    (wide : 2 ^ 32 ≤ t.usize_max + 1) where
  encode_u8_items : (xs : List ℕ) → encode_items encode_u8 xs ≡ xs
  encode_u8_items [] = refl
  encode_u8_items (x ∷ xs) = ap (λ z. x ∷ z) (encode_u8_items xs)

  pub u8_de-IsDeserialize : IsDeserialize view (u8_de t) (IsUint 1) encode_u8
  unfolding array_from_reader_u8
  u8_de-IsDeserialize = record {
    reads = λ x v. deserialize_u8-Reads law x;
    vec_hook =
        inr λ xs small v. rw encode_u8_items (vec_from_reader_u8-Reads t law xs (omega arith));
    array_hook = inr λ xs small v.
        rw encode_u8_items
          (Reads-map (read_exact_or (length xs)) _ (read_exact_or-Reads law xs) (λ s. refl));
    one_value = λ e. absurd (omega arith);
  }

  -- A byte string is read back if it is a text.
  pub deserialize_string-Reads :
      (utf8_error : List ℕ → String) (bytes : List ℕ)
      → SeqValid (IsUint 1) bytes
      → is_utf8 bytes ≡ true
      → Reads view (deserialize_string utf8_error t) bytes (encode_seq encode_u8 bytes)
  unfolding deserialize_string
  deserialize_string-Reads utf8_error bytes v text =
      Reads-map (deserialize_vec (u8_de t) t) _
        (deserialize_vec-Reads law u8_de-IsDeserialize t bytes wide v) (λ s. rw text refl)
