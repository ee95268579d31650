-- ===== src/Ser/Canonical.antt =====
-- borsh/src/ser/mod.rs: `HashMap` and `HashSet` are written in the order of their keys, so that the
-- order in which the hasher makes the iterator go does not show.
use borsh_rs.Prelude.{
  ◌≡◌, refl, sym, ap, ◌∙◌, ◌⊎◌, inl, inr, Bool, true, false, List, [], ◌∷◌, All, Bool-cases,
}
use borsh_rs.Io.{Write}
use package.borsh_rs.Ser.{BorshSerialize}
use package.borsh_rs.Ser.Collections.{
  insert_by, sort_by, serialize_hash_map, serialize_hash_set, serialize_btree_map,
  serialize_btree_set,
}

-- The order of the keys, as `partial_cmp` has it: a total one.
pub record IsOrder {K : Type 0} (le : K → K → Bool) : Type 0 where
  pub total : (a b : K) → (le a b ≡ true) ⊎ (le b a ≡ true)
  pub antisym : (a b : K) → le a b ≡ true → le b a ≡ true → a ≡ b
  pub transitive : (a b c : K) → le a b ≡ true → le b c ≡ true → le a c ≡ true

-- Two orders of the same items.
pub data Reordered {A : Type 0} : List A → List A → Type 0 where
  same : (xs : List A) → Reordered xs xs
  under : (x : A) {xs ys : List A} → Reordered xs ys → Reordered (x ∷ xs) (x ∷ ys)
  swapped : (x y : A) (xs : List A) → Reordered (x ∷ y ∷ xs) (y ∷ x ∷ xs)
  chain : {xs ys zs : List A} → Reordered xs ys → Reordered ys zs → Reordered xs zs

module _ {A K : Type 0} (key : A → K) {le : K → K → Bool} (order : IsOrder le) where
  not_le : (a b : K) → le a b ≡ false → le b a ≡ true
  not_le a b h = elim (order.total a b) [ inl e ↦ absurd (cc) | inr e ↦ e ]

  insert_by-here :
      (a c : A) (xs : List A) → le (key a) (key c) ≡ true → insert_by key le a (c ∷ xs) ≡ a ∷ c ∷ xs
  unfolding insert_by
  insert_by-here a c xs e = rw (e, insert_by) refl

  insert_by-later :
      (a c : A) (xs : List A)
      → le (key a) (key c) ≡ false
      → insert_by key le a (c ∷ xs) ≡ c ∷ insert_by key le a xs
  unfolding insert_by
  insert_by-later a c xs e = rw (e, insert_by) refl

  insert_by-nil : (a : A) → insert_by key le a [] ≡ a ∷ []
  unfolding insert_by
  insert_by-nil a = refl

  -- Two items of which one has the smaller key.
  insert_by-smaller :
      (a b : A) (xs : List A)
      → le (key a) (key b) ≡ true
      → le (key b) (key a) ≡ false
      → insert_by key le a (insert_by key le b xs) ≡ insert_by key le b (insert_by key le a xs)
  insert_by-smaller a b [] ab ba =
      cc (insert_by-nil a, insert_by-nil b, insert_by-here a b [] ab, insert_by-later b a [] ba)
  insert_by-smaller a b (c ∷ xs) ab ba = elim (Bool-cases (le (key b) (key c))) [
    | inl bc ↦
        let ac = order.transitive (key a) (key b) (key c) ab bc in
        cc (
          insert_by-here b c xs bc,
          insert_by-here a b (c ∷ xs) ab,
          insert_by-here a c xs ac,
          insert_by-later b a (c ∷ xs) ba,
        )
    | inr bc ↦ elim (Bool-cases (le (key a) (key c))) [
      | inl ac ↦ cc (
        insert_by-later b c xs bc,
        insert_by-here a c (insert_by key le b xs) ac,
        insert_by-here a c xs ac,
        insert_by-later b a (c ∷ xs) ba,
      )
      | inr ac ↦ cc (
        insert_by-later b c xs bc,
        insert_by-later a c (insert_by key le b xs) ac,
        insert_by-later a c xs ac,
        insert_by-later b c (insert_by key le a xs) bc,
        insert_by-smaller a b xs ab ba,
      )
    ]
  ]

  insert_by-swap :
      (a b : A) (xs : List A)
      → (key a ≡ key b → a ≡ b)
      → insert_by key le a (insert_by key le b xs) ≡ insert_by key le b (insert_by key le a xs)
  insert_by-swap a b xs one = elim (Bool-cases (le (key a) (key b))) [
    | inl ab ↦ elim (Bool-cases (le (key b) (key a))) [
      | inl ba ↦
          let e = one (order.antisym (key a) (key b) ab ba) in
          ap (λ z. insert_by key le z (insert_by key le b xs)) e
          ∙ ap (λ z. insert_by key le b (insert_by key le z xs)) (sym e)
      | inr ba ↦ insert_by-smaller a b xs ab ba
    ]
    | inr ab ↦ sym (insert_by-smaller b a xs (not_le (key a) (key b) ab) ab)
  ]

  -- The items are told apart by their keys, if each has what `item` says its key stands for.
  module _ (item : K → A) where
    All-Reordered :
        {xs ys : List A}
        → Reordered xs ys
        → All (λ x. item (key x) ≡ x) xs
        → All (λ x. item (key x) ≡ x) ys
    All-Reordered (same xs) h = h
    All-Reordered (under x r) h = (h.0, All-Reordered r h.1)
    All-Reordered (swapped x y xs) h = (h.1.0, (h.0, h.1.1))
    All-Reordered (chain r r') h = All-Reordered r' (All-Reordered r h)

    pub sort_by-Reordered :
        {xs ys : List A}
        → Reordered xs ys
        → All (λ x. item (key x) ≡ x) xs
        → sort_by key le xs ≡ sort_by key le ys
    unfolding sort_by
    sort_by-Reordered (same xs) h = refl
    sort_by-Reordered (under x r) h = ap (insert_by key le x) (sort_by-Reordered r h.1)
    sort_by-Reordered (swapped x y xs) h =
        insert_by-swap x y (sort_by key le xs) (λ e. sym h.0 ∙ ap item e ∙ h.1.0)
    sort_by-Reordered (chain r r') h =
        sort_by-Reordered r h ∙ sort_by-Reordered r' (All-Reordered r h)

module _ {W : Type 0} ⦃wr : Write W⦄ {K V : Type 0} (s : BorshSerialize W K)
    (t : BorshSerialize W V) {le : K → K → Bool} (order : IsOrder le) where
  -- If the order of the keys is total, a `HashMap` is written the same, to any writer, in
  -- whatever order its iterator goes.
  pub serialize_hash_map-Reordered :
      (lookup : K → V) (xs ys : List (K × V))
      → All (λ entry. lookup entry.0 ≡ entry.1) xs
      → Reordered xs ys
      → serialize_hash_map s t le xs ≡ serialize_hash_map s t le ys
  unfolding serialize_hash_map
  serialize_hash_map-Reordered lookup xs ys h r =
      ap (serialize_btree_map s t)
        (sort_by-Reordered (λ entry. entry.0) order (λ k. (k, lookup k)) r (entries xs h))
    where
      entries :
          (xs : List (K × V))
          → All (λ entry. lookup entry.0 ≡ entry.1) xs
          → All (λ entry. (entry.0, lookup entry.0) ≡ entry) xs
      entries [] h = tt
      entries (x ∷ xs) h = (ap (λ v. (x.0, v)) h.0, entries xs h.1)

module _ {W : Type 0} ⦃wr : Write W⦄ {K : Type 0} (s : BorshSerialize W K) {le : K → K → Bool}
    (order : IsOrder le) where
  -- If the order of the items is total, a `HashSet` is written the same, to any writer, in
  -- whatever order its iterator goes.
  pub serialize_hash_set-Reordered :
      {xs ys : List K} → Reordered xs ys → serialize_hash_set s le xs ≡ serialize_hash_set s le ys
  unfolding serialize_hash_set
  serialize_hash_set-Reordered {xs} {ys} r =
      ap (serialize_btree_set s) (sort_by-Reordered (λ x. x) order (λ k. k) r (all xs))
    where
      all : (xs : List K) → All (λ x. x ≡ x) xs
      all [] = tt
      all (x ∷ xs) = (refl, all xs)
