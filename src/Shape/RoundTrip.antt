-- ===== src/Shape/RoundTrip.antt =====
-- borsh/src/ser/mod.rs and borsh/src/de/mod.rs together, for every type that has a shape.
use borsh_rs.Prelude.{ℕ, ◌≡◌, ◌≢◌, ◌↔◌, sym, ap, ◌∙◌, All, List, ◌∷◌, ◌++◌}
use borsh_rs.Io.{Read, Write, ok, err, custom, invalid_data}
use borsh_rs.Io.Slice.{vec_write, slice_read}
use borsh_rs.Io.SliceLaws.{slice_read-IsRead, vec_write-IsWrite}
use borsh_rs.Io.Laws.{IsByte, IsRead, IsWrite}
use borsh_rs.Ser.{try_to_vec}
use borsh_rs.De.{try_from_slice, not_all_bytes_read}
use borsh_rs.RoundTrip.{
  try_to_vec-encode, try_from_slice-try_to_vec, try_from_slice-ok_iff, try_from_slice-truncated,
  try_from_slice-trailing,
}
use package.borsh_rs.Shape.{Shape, El, encode, IsValid, Platform, IsPlatform, ser, de}
use package.borsh_rs.Shape.Writes.{ser-IsSerialize}
use package.borsh_rs.Shape.Reads.{de-IsDeserialize}
use package.borsh_rs.Shape.Consumes.{de-Sound}

module _ (p : Platform) (plat : IsPlatform p) where
  -- For every type that has a shape, on a platform of 32 bits or more that gives size 0 to
  -- types of size 0 only, `try_from_slice` accepts a byte string exactly if the format makes
  -- it the encoding of a valid value, and that value is the answer.
  pub de-encode_iff :
      (a : Shape) (bytes : List ℕ) (x : El a)
      → All IsByte bytes
      → (try_from_slice (de p a) bytes ≡ ok x) ↔ ((bytes ≡ encode a x) × IsValid p.target a x)
  de-encode_iff a =
      try_from_slice-ok_iff (de p a) (de-IsDeserialize slice_read-IsRead p plat a)
        (de-Sound slice_read-IsRead p plat a)

  -- For every type that has a shape, on a platform of 32 bits or more that gives size 0 to
  -- types of size 0 only, `try_from_slice` gives a value for a byte string exactly if the
  -- value is valid and `try_to_vec` gives that byte string for it.
  pub de-try_to_vec_iff :
      (a : Shape) (bytes : List ℕ) (x : El a)
      → All IsByte bytes
      → (try_from_slice (de p a) bytes ≡ ok x)
        ↔ ((try_to_vec (ser a) x ≡ ok bytes) × IsValid p.target a x)
  de-try_to_vec_iff a bytes x good =
      let (there, back) = de-encode_iff a bytes x good in
      let written = try_to_vec-encode (ser a) (ser-IsSerialize vec_write-IsWrite p.target a) x in
      (
        λ h. let (e, v) = there h in (written v ∙ ap ok (sym e), v),
        λ (h, v). back (same (sym h ∙ written v), v),
      )
    where
      same : {xs ys : List ℕ} → ok xs ≡ ok ys → xs ≡ ys
      same h = cc

  -- For every type that has a shape, on a platform of 32 bits or more that gives size 0 to
  -- types of size 0 only, `try_to_vec` of a valid value succeeds, and `try_from_slice` gives
  -- the value back from the bytes.
  pub de-try_to_vec :
      (a : Shape) (x : El a)
      → IsValid p.target a x
      → (bytes : List ℕ) × (try_to_vec (ser a) x ≡ ok bytes)
        × (try_from_slice (de p a) bytes ≡ ok x)
  de-try_to_vec a =
      try_from_slice-try_to_vec (ser a) (ser-IsSerialize vec_write-IsWrite p.target a) (de p a)
        (de-IsDeserialize slice_read-IsRead p plat a)

  -- For every type that has a shape, on a platform of 32 bits or more that gives size 0 to
  -- types of size 0 only, `try_from_slice` refuses the encoding of a valid value with
  -- anything behind it, with `Not all bytes read`.
  pub de-trailing :
      (a : Shape) (x : El a) (b : ℕ) (more : List ℕ)
      → IsValid p.target a x
      → try_from_slice (de p a) (encode a x ++ (b ∷ more))
        ≡ err (custom invalid_data not_all_bytes_read)
  de-trailing a =
      try_from_slice-trailing (ser a) (ser-IsSerialize vec_write-IsWrite p.target a) (de p a)
        (de-IsDeserialize slice_read-IsRead p plat a)

  -- For every type that has a shape, on a platform of 32 bits or more that gives size 0 to
  -- types of size 0 only, `try_from_slice` accepts no proper front of the encoding of a valid
  -- value.
  pub de-truncated :
      (a : Shape) (x y : El a) (front : List ℕ) (b : ℕ) (back : List ℕ)
      → IsValid p.target a x
      → All IsByte front
      → encode a x ≡ front ++ (b ∷ back)
      → try_from_slice (de p a) front ≢ ok y
  de-truncated a =
      try_from_slice-truncated (de p a) (de-IsDeserialize slice_read-IsRead p plat a)
        (de-Sound slice_read-IsRead p plat a)

  -- For every type that has a shape, on a platform of 32 bits or more that gives size 0 to
  -- types of size 0 only, `serialize` of a valid value does what one `write_all` of its
  -- encoding does, for a writer that takes a buffer as it takes its parts, in any of its
  -- states and with any error.
  pub ser-write_all :
      {W : Type 0} ⦃wr : Write W⦄
      → IsWrite wr
      → (a : Shape) (x : El a) (w : W) → IsValid p.target a x
      → (ser a).serialize x w ≡ wr.write_all (encode a x) w
  ser-write_all law a x w v = ((ser-IsSerialize law p.target a).emits x v).writes w

  -- For every type that has a shape, on a platform of 32 bits or more that gives size 0 to
  -- types of size 0 only, and over any reader that keeps its contract: a successful
  -- `deserialize_reader` has consumed the encoding of the value that it returns, and nothing
  -- else, and the value is valid.
  pub de-consumed :
      {R : Type 0} ⦃rd : Read R⦄ {view : R → List ℕ}
      → IsRead rd view
      → (a : Shape) (s : R) (x : El a) (s' : R) → All IsByte (view s)
      → (de p a).deserialize_reader s ≡ (ok x, s')
      → (view s ≡ encode a x ++ view s') × IsValid p.target a x
  de-consumed law a s x s' good h = (de-Sound law p plat a).consumed s x s' good h
