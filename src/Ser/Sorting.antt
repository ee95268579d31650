-- ===== src/Ser/Sorting.antt =====
-- borsh/src/ser/mod.rs: what `sort_by` leaves as it is.
use borsh_rs.Prelude.{
  suc, ◌≡◌, refl, ap, ◌∙◌, Bool, List, [], ◌∷◌, All, length, Bool-cases, inl, inr,
}
use package.borsh_rs.Ser.Collections.{insert_by, sort_by}

module _ {A K : Type 0} (key : A → K) (le : K → K → Bool) where
  pub insert_by-All :
      (P : A → Type 0) (a : A) (xs : List A) → P a → All P xs → All P (insert_by key le a xs)
  unfolding insert_by
  insert_by-All P a [] p h = (p, tt)
  insert_by-All P a (x ∷ xs) p h = elim (Bool-cases (le (key a) (key x))) [
    | inl e ↦ rw (e, insert_by) (p, h)
    | inr e ↦ rw (e, insert_by) (h.0, insert_by-All P a xs p h.1)
  ]

  pub sort_by-All : (P : A → Type 0) (xs : List A) → All P xs → All P (sort_by key le xs)
  unfolding sort_by
  sort_by-All P [] h = tt
  sort_by-All P (x ∷ xs) h = insert_by-All P x (sort_by key le xs) h.0 (sort_by-All P xs h.1)

  length-insert_by : (a : A) (xs : List A) → length (insert_by key le a xs) ≡ suc (length xs)
  unfolding insert_by
  length-insert_by a [] = refl
  length-insert_by a (x ∷ xs) = elim (Bool-cases (le (key a) (key x))) [
    | inl e ↦ rw (e, insert_by) refl
    | inr e ↦ rw (e, insert_by) (ap suc (length-insert_by a xs))
  ]

  pub length-sort_by : (xs : List A) → length (sort_by key le xs) ≡ length xs
  unfolding sort_by
  length-sort_by [] = refl
  length-sort_by (x ∷ xs) = length-insert_by x (sort_by key le xs) ∙ ap suc (length-sort_by xs)
