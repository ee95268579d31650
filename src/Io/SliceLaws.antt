-- ===== src/Io/SliceLaws.antt =====
-- The readers and writers of borsh/src/nostd_io.rs over slices and vectors keep the contracts.
use borsh_rs.Prelude.{
  ℕ, ◌≤◌, ◌<◌, min, refl, sym, append_assoc, append-nil, arith, length, take, drop, length-take,
  take-append-drop, lt→ltb, le→ltb,
}
use borsh_rs.Io.{custom, unexpected_eof}
use borsh_rs.Io.Slice.{Slice, read_slice, read_exact_slice, slice_read, write_all_vec, vec_write}
use borsh_rs.Io.Laws.{IsRead, IsWrite}

read_slice_part :
    (n : ℕ) (s : Slice)
    → (length (take (min n (length s)) s) ≤ n)
      × (0 < n → 0 < length s → 0 < length (take (min n (length s)) s))
read_slice_part n s = (
  omega (arith, length-take (min n (length s)) s),
  λ hn hs. omega (arith, length-take (min n (length s)) s),
)

-- Reading from a slice consumes the slice.
pub slice_read-IsRead : IsRead slice_read (λ s. s)
unfolding read_slice read_exact_slice
slice_read-IsRead = record {
  read_part = λ n s.
      let amt : ℕ = min n (length s) in
      (
        take amt s,
        drop amt s,
        refl,
        sym (take-append-drop amt s),
        (read_slice_part n s).0,
        (read_slice_part n s).1,
      );
  read_exact_full = λ n s h. (
    take n s,
    drop n s,
    rw (le→ltb (length s) n h) refl,
    sym (take-append-drop n s),
    omega (arith, length-take n s),
  );
  read_exact_short = λ n s h. (
    custom unexpected_eof "failed to fill whole buffer",
    s,
    rw (lt→ltb (length s) n h) refl,
    refl,
  );
}

-- Appending to a vector.
pub vec_write-IsWrite : IsWrite vec_write
unfolding write_all_vec
vec_write-IsWrite = record {
  write_all-nil = λ w. rw append-nil;
  write_all-append = λ xs ys w. rw append_assoc;
}
