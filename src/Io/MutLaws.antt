-- ===== src/Io/MutLaws.antt =====
-- borsh/src/nostd_io.rs: `Write` for `&mut [u8]` stores what fits, and fails exactly if something
-- does not fit; so it takes a buffer as it takes its parts.
use borsh_rs.Prelude.{
  ℕ, zero, suc, ◌-◌, ◌≤◌, ◌<◌, min, ◌≡◌, refl, sym, ap, ◌∙◌, List, [], ◌∷◌, ◌++◌, append_assoc,
  append-nil, arith, length, take, length-append, leb, if◌then◌else◌, Bool-cases, inl, inr, leb→le,
  leb→gt,
}
use native.Mathlib.Nat.{suc-min-suc, suc-sub-suc, sub-zero}
use borsh_rs.Io.{Result, ok, err, custom, write_zero, and_then}
use borsh_rs.Io.Slice.{MutSlice, write_all_mut, mut_write}
use borsh_rs.Io.Laws.{IsWrite}

module _ {ℓ} {A : Type ℓ} where
  take_nil : (k : ℕ) → take {A = A} k [] ≡ []
  take_nil zero = refl
  take_nil (suc k) = refl

  take_zero : (n : ℕ) (xs : List A) → n ≡ 0 → take n xs ≡ []
  take_zero zero xs h = refl
  take_zero (suc n) xs h = absurd (omega arith)

  take-append : (n : ℕ) (xs ys : List A) → take n (xs ++ ys) ≡ take n xs ++ take (n - length xs) ys
  take-append n [] ys = rw (sub-zero, take_nil n)
  take-append zero (x ∷ xs) ys = sym (take_zero _ ys (omega arith))
  take-append (suc n) (x ∷ xs) ys =
      ap (λ t. x ∷ t)
        (take-append n xs ys ∙ ap (λ k. take n xs ++ take k ys) (sym (suc-sub-suc n (length xs))))

  take-min : (n : ℕ) (xs : List A) → take (min (length xs) n) xs ≡ take n xs
  take-min n [] = take_nil (min zero n) ∙ sym (take_nil n)
  take-min zero (x ∷ xs) = take_zero _ (x ∷ xs) (omega arith)
  take-min (suc n) (x ∷ xs) = rw suc-min-suc (ap (λ t. x ∷ t) (take-min n xs))

-- The state and the outcome after `write_all`.
abbrev put : List ℕ → MutSlice → MutSlice
put xs s = record { stored = s.stored ++ take s.room xs; room = s.room - length xs }

abbrev fits : List ℕ → MutSlice → Result (Unit {0})
fits xs s =
    if leb (length xs) s.room then ok tt else err (custom write_zero "failed to write whole buffer")

write_all_mut-put : (xs : List ℕ) (s : MutSlice) → write_all_mut xs s ≡ (fits xs s, put xs s)
unfolding write_all_mut
write_all_mut-put xs s = ground (arith, take-min s.room xs)

put-append : (xs ys : List ℕ) (s : MutSlice) → put (xs ++ ys) s ≡ put ys (put xs s)
put-append xs ys s = ground (
  arith,
  take-append s.room xs ys,
  append_assoc s.stored (take s.room xs) (take (s.room - length xs) ys),
  length-append xs ys,
)

-- What the first part cannot store, the second does not change.
full : (xs ys : List ℕ) (s : MutSlice) → s.room < length xs → put ys (put xs s) ≡ put xs s
full xs ys s h = ground (
  arith,
  take_zero (s.room - length xs) ys (omega arith),
  append-nil (s.stored ++ take s.room xs),
)

-- Nothing is stored of nothing.
put-nil : (s : MutSlice) → ◌≡◌ {A = Result (Unit {0}) × MutSlice} (fits [] s, put [] s) (ok tt, s)
put-nil s = ground (arith, take_nil {A = ℕ} s.room, append-nil s.stored)

fits-append :
    (xs ys : List ℕ) (s : MutSlice) → length xs ≤ s.room → fits (xs ++ ys) s ≡ fits ys (put xs s)
fits-append xs ys s h = ground (arith, length-append xs ys)

unfit-append : (xs ys : List ℕ) (s : MutSlice) → s.room < length xs → fits (xs ++ ys) s ≡ fits xs s
unfit-append xs ys s h = ground (arith, length-append xs ys)

-- A buffer in two parts is written to a `&mut [u8]` as its parts one after the other, also
-- where it does not fit: the slice then holds the same bytes, and the answer is the same error.
pub write_all_mut-append :
    (xs ys : List ℕ) (s : MutSlice)
    → write_all_mut (xs ++ ys) s ≡ and_then (write_all_mut xs s) (λ _. write_all_mut ys)
write_all_mut-append xs ys s = elim (Bool-cases (leb (length xs) s.room)) [
  | inl h ↦
      rw (write_all_mut-put xs s, h)
        (write_all_mut-put (xs ++ ys) s
          ∙ rw (fits-append xs ys s (leb→le _ _ h), put-append xs ys s)
              (sym (write_all_mut-put ys (put xs s))))
  | inr h ↦
      rw (write_all_mut-put xs s, h)
        (write_all_mut-put (xs ++ ys) s
          ∙ rw (
            unfit-append xs ys s (leb→gt _ _ h),
            put-append xs ys s,
            full xs ys s (leb→gt _ _ h),
            h,
          ))
]

-- Whole and in parts, a `&mut [u8]` is written alike.
pub mut_write-IsWrite : IsWrite mut_write
mut_write-IsWrite = record {
  write_all-nil = λ w. write_all_mut-put [] w ∙ put-nil w;
  write_all-append = write_all_mut-append;
}
