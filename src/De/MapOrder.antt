-- ===== src/De/MapOrder.antt =====
-- borsh/src/de/mod.rs: a `BTreeMap` is read from its entries in whatever order they stand.
use borsh_rs.Prelude.{
  ℕ, ◌≡◌, ◌≢◌, refl, sym, ap, ◌∙◌, Bool, not, ◌&&◌, List, [], ◌∷◌, ◌++◌, append-nil, append_assoc,
  All, length, arith, Bool-cases, inl, inr,
}
use mathlib.Core.Path.{subst}
use borsh_rs.Io.{Read, ok}
use borsh_rs.Io.Laws.{IsRead, Reads, Reads-bind, Reads-pure}
use borsh_rs.Encoding.{encode_seq, encode_items, encode_pair, PairValid, SeqValid}
use borsh_rs.Ser.Collections.{insert_by, sort_by}
use borsh_rs.Ser.Sorting.{sort_by-All}
use borsh_rs.Ser.Canonical.{IsOrder, Reordered, same, under, swapped, chain, sort_by-Reordered}
use package.borsh_rs.De.{BorshDeserialize}
use package.borsh_rs.De.Laws.{IsDeserialize}
use package.borsh_rs.De.Primitives.{deserialize_uint}
use package.borsh_rs.De.Reads.{deserialize_uint-Reads}
use package.borsh_rs.De.Collections.{btree_insert, deserialize_entries, deserialize_btree_map}
use package.borsh_rs.De.MapReads.{KeysApart}

-- The tests of an order that `Ord` gives: `a < b` and `a == b`.
abbrev pub lt_of : {K : Type 0} → (K → K → Bool) → K → K → Bool
lt_of le a b = not (le b a)

abbrev pub eq_of : {K : Type 0} → (K → K → Bool) → K → K → Bool
eq_of le a b = le a b && le b a

abbrev pub Different : {K : Type 0} → K → K → Type 0
Different a b = a ≢ b

-- The entries so far, the last one first.
abbrev reversed : {A : Type 0} → List A → List A → List A
reversed [] before = before
reversed (x ∷ xs) before = reversed xs (x ∷ before)

to_front : {A : Type 0} (x : A) (xs ys : List A) → Reordered (xs ++ (x ∷ ys)) (x ∷ (xs ++ ys))
to_front x [] ys = same (x ∷ ys)
to_front x (y ∷ xs) ys = chain (under y (to_front x xs ys)) (swapped y x (xs ++ ys))

reversed-Reordered : {A : Type 0} (xs ys : List A) → Reordered (reversed xs ys) (xs ++ ys)
reversed-Reordered [] ys = same ys
reversed-Reordered (x ∷ xs) ys = chain (reversed-Reordered xs (x ∷ ys)) (to_front x xs ys)

Reordered-back : {A : Type 0} {xs ys : List A} → Reordered xs ys → Reordered ys xs
Reordered-back (same xs) = same xs
Reordered-back (under x r) = under x (Reordered-back r)
Reordered-back (swapped x y xs) = swapped y x xs
Reordered-back (chain r r') = chain (Reordered-back r') (Reordered-back r)

module _ {K V : Type 0} (le : K → K → Bool) (order : IsOrder le) where
  abbrev sorted : List (K × V) → List (K × V)
  sorted xs = sort_by (λ entry. entry.0) le xs

  -- A new key is inserted where an insertion sort puts it.
  btree_insert-insert_by :
      (key : K) (value : V) (xs : List (K × V))
      → All (λ entry. Different key entry.0) xs
      → btree_insert (lt_of le) (eq_of le) key value xs
        ≡ insert_by (λ entry. entry.0) le (key, value) xs
  unfolding btree_insert insert_by
  btree_insert-insert_by key value [] h = refl
  btree_insert-insert_by key value ((k, v) ∷ rest) h =
      let later = btree_insert-insert_by key value rest h.1 in
      elim (Bool-cases (le key k)) [
        | inl below ↦ elim (Bool-cases (le k key)) [
          | inl above ↦ absurd (h.0 (order.antisym key k below above))
          | inr above ↦ rw (below, above, btree_insert, insert_by) refl
        ]
        | inr below ↦ elim (order.total key k) [
          | inl e ↦ absurd (cc)
          | inr above ↦ rw (below, above, btree_insert, insert_by) (ap (λ zs. (k, v) ∷ zs) later)
        ]
      ]

  -- Entries with different keys, one inserted after the other.
  abbrev inserted : List (K × V) → List (K × V) → List (K × V)
  inserted result [] = result
  inserted result ((key, value) ∷ xs) =
      inserted (btree_insert (lt_of le) (eq_of le) key value result) xs

  abbrev DifferentFrom : List (K × V) → K → Type 0
  DifferentFrom xs key = All (λ entry. Different key entry.0) xs

  also_from :
      (key : K) (value : V) (ys xs : List (K × V))
      → All (λ later. Different key later.0) xs
      → All (λ later. DifferentFrom ys later.0) xs
      → All (λ later. DifferentFrom ((key, value) ∷ ys) later.0) xs
  also_from key value ys [] h k = tt
  also_from key value ys (x ∷ xs) h k =
      (((λ e. h.0 (sym e)), k.0), also_from key value ys xs h.1 k.1)

  inserted-sort_by :
      (ys xs : List (K × V))
      → KeysApart Different xs
      → All (λ later. DifferentFrom ys later.0) xs
      → inserted (sorted ys) xs ≡ sorted (reversed xs ys)
  unfolding sort_by
  inserted-sort_by ys [] h k = refl
  inserted-sort_by ys ((key, value) ∷ xs) h k =
      ap (λ zs. inserted zs xs)
        (btree_insert-insert_by key value (sorted ys)
          (sort_by-All (λ entry. entry.0) le (λ entry. Different key entry.0) ys k.0))
      ∙ inserted-sort_by ((key, value) ∷ ys) xs h.1 (also_from key value ys xs h.0 k.1)

  no_entries : (xs : List (K × V)) → All (λ later. DifferentFrom [] later.0) xs
  no_entries [] = tt
  no_entries (x ∷ xs) = (tt, no_entries xs)

  -- Insertion into an empty map sorts, if the keys tell the entries apart.
  inserted-sorted :
      (lookup : K → V) (xs : List (K × V))
      → All (λ entry. (entry.0, lookup entry.0) ≡ entry) xs
      → KeysApart Different xs
      → inserted [] xs ≡ sorted xs
  unfolding sort_by
  inserted-sorted lookup xs h apart =
      inserted-sort_by [] xs apart (no_entries xs)
      ∙ sym (
          sort_by-Reordered (λ entry. entry.0) order (λ k. (k, lookup k))
            (Reordered-back
              (subst (Reordered (reversed xs [])) (append-nil xs) (reversed-Reordered xs [])))
            h)

  module _ {R : Type 0} ⦃rd : Read R⦄ {view : R → List ℕ} (law : IsRead rd view)
      {d : BorshDeserialize R K} {d' : BorshDeserialize R V} {Valid : K → Type 0} {enc : K → List ℕ}
      {Valid' : V → Type 0} {enc' : V → List ℕ} (h : IsDeserialize view d Valid enc)
      (h' : IsDeserialize view d' Valid' enc') where
    deserialize_entries-inserted :
        (result xs : List (K × V))
        → All (PairValid Valid Valid') xs
        → Reads view
            (deserialize_entries d d' (btree_insert (lt_of le) (eq_of le)) (length xs) result)
            (inserted result xs)
            (encode_items (encode_pair enc enc') xs)
    unfolding deserialize_entries
    deserialize_entries-inserted result [] v = Reads-pure result
    deserialize_entries-inserted result ((key, value) ∷ xs) v =
        rw (append_assoc (enc key) (enc' value) (encode_items (encode_pair enc enc') xs)) (
          Reads-bind d.deserialize_reader _ (h.reads key v.0.0) (
            Reads-bind d'.deserialize_reader _ (h'.reads value v.0.1) (
              deserialize_entries-inserted (btree_insert (lt_of le) (eq_of le) key value result) xs
                v.1)))

    -- Over any reader that keeps its contract, and for keys and values that are read from
    -- their encodings: from an input that begins with the encoding of valid entries with
    -- different keys, fewer than 2 ^ 32, in whatever order they stand, the `BTreeMap` with
    -- these entries in the order of their keys is read, and the rest is left. The order of
    -- the keys must be total.
    pub deserialize_btree_map-sort_by :
        (lookup : K → V) (xs : List (K × V)) (s : R) (rest : List ℕ)
        → All (λ entry. (entry.0, lookup entry.0) ≡ entry) xs
        → KeysApart Different xs
        → SeqValid (PairValid Valid Valid') xs
        → view s ≡ encode_seq (encode_pair enc enc') xs ++ rest
        → (s' : R) × (deserialize_btree_map d d' (lt_of le) (eq_of le) s
            ≡ (ok (sort_by (λ entry. entry.0) le xs), s'))
          × (view s' ≡ rest)
    unfolding deserialize_btree_map
    deserialize_btree_map-sort_by lookup xs s rest same_values apart v e =
        let (s', run, left) =
          (Reads-bind (deserialize_uint 4)
              (λ len. deserialize_entries d d' (btree_insert (lt_of le) (eq_of le)) len [])
              (deserialize_uint-Reads law 4 (length xs) (omega (arith, v.0)))
              (deserialize_entries-inserted [] xs v.1)).takes
            s rest e in
        (s', run ∙ ap (λ z. (ok z, s')) (inserted-sorted lookup xs same_values apart), left)
