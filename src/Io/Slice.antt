-- ===== src/Io/Slice.antt =====
-- borsh/src/nostd_io.rs: `Read` for `&[u8]`, `Write` for `Vec<u8>` and for `&mut [u8]`.
use borsh_rs.Prelude.{ℕ, min, List, ◌++◌, ◌-◌, length, take, drop, ltb, ◌==◌, if◌then◌else◌}
use borsh_rs.Io.{M, Read, Write, ok, err, custom, unexpected_eof, write_zero, and_then}

-- A `&[u8]` is what is left of it to read.
abbrev pub Slice : Type 0
Slice = List ℕ

-- `impl Read for &[u8]`: `read`. The two ways of copying for one and for more bytes are the same.
unfoldable pub read_slice : ℕ → M Slice (List ℕ)
read_slice n self = let amt = min n (length self) in (ok (take amt self), drop amt self)

-- `impl Read for &[u8]`: `read_exact`. A slice that is too short stays as it was.
unfoldable pub read_exact_slice : ℕ → M Slice (List ℕ)
read_exact_slice n self =
    if ltb (length self) n
    then (err (custom unexpected_eof "failed to fill whole buffer"), self)
    else (ok (take n self), drop n self)

instance abbrev pub slice_read : Read Slice
slice_read = record { read = read_slice; read_exact = read_exact_slice }

-- `impl Write for Vec<u8>`
unfoldable pub write_vec : List ℕ → M (List ℕ) ℕ
write_vec buf self = (ok (length buf), self ++ buf)

unfoldable pub write_all_vec : List ℕ → M (List ℕ) (Unit {0})
write_all_vec buf self = (ok tt, self ++ buf)

instance abbrev pub vec_write : Write (List ℕ)
vec_write = record { write = write_vec; write_all = write_all_vec }

-- A `&mut [u8]` that is being written: the bytes stored so far, and the length of the part that
-- the slice still points to.
pub record MutSlice : Type 0 where
  pub stored : List ℕ
  pub room : ℕ

-- `impl Write for &mut [u8]`: `write`.
unfoldable pub write_mut : List ℕ → M MutSlice ℕ
write_mut input self =
    let amt = min (length input) self.room in
    (ok amt, record { stored = self.stored ++ take amt input; room = self.room - amt })

-- `impl Write for &mut [u8]`: `write_all`.
unfoldable pub write_all_mut : List ℕ → M MutSlice (Unit {0})
unfolding write_mut
write_all_mut input self = and_then (write_mut input self) λ n s.
    if n == length input
    then (ok tt, s)
    else (err (custom write_zero "failed to write whole buffer"), s)

instance abbrev pub mut_write : Write MutSlice
mut_write = record { write = write_mut; write_all = write_all_mut }
