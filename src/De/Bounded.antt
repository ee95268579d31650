-- ===== src/De/Bounded.antt =====
-- borsh/src/de/mod.rs: how much `u8::vec_from_reader` asks for at once.
use borsh_rs.Prelude.{
  ℕ, zero, suc, ◌+◌, ◌-◌, ◌*◌, ◌≤◌, min, max, ◌≡◌, refl, ap, Bool-cases, inl, inr, List, [], ◌∷◌,
  ◌++◌, length, length-append, replicate, arith, ltb, leb, le→leb, if◌then◌else◌,
}
use borsh_rs.Io.{M, Read, ok, panicked}
use borsh_rs.Io.Laws.{IsRead}
use package.borsh_rs.De.{Target}
use package.borsh_rs.De.Bytes.{
  grown, first_allocation, after_vec_read, fill_vec, vec_from_reader_u8,
}

-- The reader that panics if it is asked for more than `limit` bytes at once.
abbrev pub capped : {R : Type 0} → ℕ → Read R → Read R
capped limit rd = record {
  read = λ n s. if leb n limit then rd.read n s else (panicked, s);
  read_exact = rd.read_exact;
}

-- The vector is not larger than the first one, or than twice what was read.
grown-bound :
    (t : Target) (len pos vec_len limit : ℕ)
    → vec_len ≤ max first_allocation (2 * pos)
    → first_allocation ≤ limit
    → pos ≤ limit
    → (grown t len pos vec_len ≤ max first_allocation (2 * pos))
      × (grown t len pos vec_len - pos ≤ limit)
grown-bound t len pos vec_len limit h first_fits fits = ground arith

module _ {R : Type 0} (rd : Read R) (t : Target) {view : R → List ℕ} (law : IsRead rd view)
    (limit : ℕ) (first_fits : first_allocation ≤ limit) where
  capped-read : (n : ℕ) (s : R) → n ≤ limit → (capped limit rd).read n s ≡ rd.read n s
  capped-read n s h = rw (le→leb n limit h) refl

  after_vec_read-capped :
      (k k' : List ℕ → M R (List ℕ)) (filled got : List ℕ) (s' : R)
      → k (filled ++ got) s' ≡ k' (filled ++ got) s'
      → after_vec_read ⦃rd = capped limit rd⦄ t k filled (ok got, s')
        ≡ after_vec_read ⦃rd = rd⦄ t k' filled (ok got, s')
  after_vec_read-capped k k' filled [] s' h = refl
  after_vec_read-capped k k' filled (b ∷ bs) s' h = h

  fill_vec-capped :
      (fuel len vec_len : ℕ) (filled : List ℕ) (s : R)
      → vec_len ≤ max first_allocation (2 * length filled)
      → length filled + length (view s) ≤ limit
      → fill_vec ⦃rd = capped limit rd⦄ t fuel len vec_len filled s
        ≡ fill_vec ⦃rd = rd⦄ t fuel len vec_len filled s
  unfolding fill_vec
  fill_vec-capped zero len vec_len filled s h total = refl
  fill_vec-capped (suc fuel) len vec_len filled s h total =
      let vec_len' = grown t len (length filled) vec_len in
      let (small, asked) =
        grown-bound t len (length filled) vec_len limit h first_fits (omega arith) in
      let (got, s', run, split, fits, some_got) = law.read_part (vec_len' - length filled) s in
      let left : length (view s) ≡ length got + length (view s') =
        rw (split, length-append got (view s')) refl in
      let grown_total : length (filled ++ got) ≡ length filled + length got =
        length-append filled got in
      let rest = fill_vec-capped fuel len vec_len' (filled ++ got) s' (omega arith) (omega arith) in
      rw (capped-read (vec_len' - length filled) s asked, run)
        (ap
          (λ m.
            if ltb (length filled) len
            then m
            else (ok (filled ++ replicate (vec_len - length filled) 0), s))
          (after_vec_read-capped (fill_vec ⦃rd = capped limit rd⦄ t fuel len vec_len')
            (fill_vec ⦃rd = rd⦄ t fuel len vec_len') filled got s' rest))

  -- Over any reader that keeps its contract, `u8::vec_from_reader` never asks for more than
  -- `limit` bytes at once, whatever the length that it is given, if `limit` is 1 MiB at least
  -- and the input has no more bytes than that: a reader that panics when it is asked for more
  -- makes no difference.
  pub vec_from_reader_u8-capped :
      (len : ℕ) (s : R)
      → length (view s) ≤ limit
      → vec_from_reader_u8 ⦃rd = capped limit rd⦄ t len s ≡ vec_from_reader_u8 ⦃rd = rd⦄ t len s
  unfolding vec_from_reader_u8
  vec_from_reader_u8-capped len s total = elim (Bool-cases (leb len t.usize_max)) [
    | inl e ↦
        rw
          (
            e,
            fill_vec-capped (suc len) len (min len first_allocation) [] s (omega arith)
                (omega arith),
          )
          refl
    | inr e ↦ rw e refl
  ]
