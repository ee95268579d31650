-- ===== src/De/Bytes.antt =====
-- borsh/src/de/mod.rs: how `u8` reads a sequence of bytes at once, and borsh/src/de/hint.rs.
use borsh_rs.Prelude.{
  ℕ, zero, suc, ◌-◌, ◌*◌, ◌/◌, min, max, List, [], ◌∷◌, ◌++◌, Option, some, length, replicate, ltb,
  leb, ◌==◌, if◌then◌else◌,
}
use borsh_rs.Io.{
  M, Read, Result, ok, err, panicked, out_of_fuel, simple, custom, invalid_input, pure, fail, ◌>>=◌,
}
use package.borsh_rs.De.{Target, BorshDeserialize, read_exact_or, unexpected_length_of_input}
use package.borsh_rs.De.Primitives.{deserialize_u8}

-- `cautious`, for elements of `el_size` bytes.
unfoldable pub cautious : ℕ → ℕ → ℕ
cautious el_size hint = max (min hint (4096 / el_size)) 1

-- The limit on what is allocated before any byte was read.
abbrev pub first_allocation : ℕ
first_allocation = 1024 * 1024

-- `vec.resize(vec.len().saturating_mul(2).min(len), 0)`, done only if the vector is full.
abbrev pub grown : Target → ℕ → ℕ → ℕ → ℕ
grown t len pos vec_len =
    if pos == vec_len then min (min (vec_len * 2) t.usize_max) len else vec_len

-- `u32` to `usize`.
abbrev pub usize_of_u32 : {R : Type 0} → Target → ℕ → M R ℕ
usize_of_u32 t len = if leb len t.usize_max then pure len else fail (simple invalid_input)

module _ {R : Type 0} ⦃rd : Read R⦄ (t : Target) where
  -- The match on what `read` returned.
  abbrev pub after_vec_read :
      (List ℕ → M R (List ℕ)) → List ℕ → Result (List ℕ) × R → Result (List ℕ) × R
  after_vec_read loop filled (ok [], s) = (err (custom invalid_input unexpected_length_of_input), s)
  after_vec_read loop filled (ok (b ∷ bs), s) = loop (filled ++ (b ∷ bs)) s
  after_vec_read loop filled (err e, s) = (err e, s)
  after_vec_read loop filled (panicked, s) = (panicked, s)
  after_vec_read loop filled (out_of_fuel, s) = (out_of_fuel, s)

  -- The loop of `vec_from_reader`: the vector has `vec_len` bytes, `filled` in its front, so that
  -- `pos` is their number, and zeros behind. A `read` that reports more than its buffer holds is
  -- outside of this: `pos += read` can wrap there, and `vec[pos..]` panic.
  unfoldable pub fill_vec : ℕ → ℕ → ℕ → List ℕ → M R (List ℕ)
  fill_vec zero len vec_len filled s = (out_of_fuel, s)
  fill_vec (suc fuel) len vec_len filled s =
      let pos = length filled in
      let vec_len' = grown t len pos vec_len in
      let more = after_vec_read (fill_vec fuel len vec_len') filled (rd.read (vec_len' - pos) s) in
      if ltb pos len then more else (ok (filled ++ replicate (vec_len - pos) 0), s)

  -- `u8::vec_from_reader`. Each round reads a byte at least, and the last one only tests.
  unfoldable pub vec_from_reader_u8 : ℕ → M R (Option (List ℕ))
  unfolding fill_vec
  vec_from_reader_u8 len = do
    n ← usize_of_u32 t len
    vec ← fill_vec (suc n) n (min n first_allocation) []
    pure (some vec)

  -- `u8::array_from_reader`
  unfoldable pub array_from_reader_u8 : ℕ → M R (Option (List ℕ))
  unfolding read_exact_or
  array_from_reader_u8 n = do arr ← read_exact_or n; pure (some arr)

  abbrev pub u8_de : BorshDeserialize R ℕ
  u8_de = record {
    deserialize_reader = deserialize_u8;
    vec_from_reader = vec_from_reader_u8;
    array_from_reader = array_from_reader_u8;
    size_of = 1;
  }
