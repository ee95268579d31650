-- ===== src/De/MapReads.antt =====
-- borsh/src/de/mod.rs: a `BTreeMap` is read back from its entries in ascending order, a `HashMap`
-- from its entries in any order.
use borsh_rs.Prelude.{
  ℕ, ◌≡◌, refl, ap, Bool, true, false, List, [], ◌∷◌, ◌++◌, append-nil, append_assoc, All, length,
  arith,
}
use mathlib.Core.Path.{subst}
use borsh_rs.Io.{Read, ok}
use borsh_rs.Io.Laws.{IsRead, Reads, Reads-bind, Reads-pure}
use borsh_rs.Encoding.{encode_seq, encode_items, encode_pair, PairValid, SeqValid}
use package.borsh_rs.De.{BorshDeserialize}
use package.borsh_rs.De.Laws.{IsDeserialize}
use package.borsh_rs.De.Primitives.{deserialize_uint}
use package.borsh_rs.De.Reads.{deserialize_uint-Reads}
use package.borsh_rs.De.Collections.{
  hash_insert, btree_insert, deserialize_entries, deserialize_hash_map, deserialize_btree_map,
}

-- Every two keys, the earlier one first, are in the relation.
abbrev pub KeysApart : {K V : Type 0} → (K → K → Type 0) → List (K × V) → Type 0
KeysApart Apart [] = Unit
KeysApart Apart (entry ∷ rest) = All (λ later. Apart entry.0 later.0) rest × KeysApart Apart rest

-- The order of the keys, as `Ord` has it, in two tests.
pub record IsKeyOrder {K : Type 0} (lt eq : K → K → Bool) : Type 0 where
  pub above : (a b : K) → lt a b ≡ true → (lt b a ≡ false) × (eq b a ≡ false)

-- A key above all others goes to the end.
btree_insert-last :
    {K V : Type 0} (lt eq : K → K → Bool)
    → IsKeyOrder lt eq
    → (key : K) (value : V) (xs : List (K × V)) → All (λ entry. lt entry.0 key ≡ true) xs
    → btree_insert lt eq key value xs ≡ xs ++ ((key, value) ∷ [])
unfolding btree_insert
btree_insert-last lt eq order key value [] h = refl
btree_insert-last lt eq order key value ((k, v) ∷ rest) h =
    let (not_lt, not_eq) = order.above k key h.0 in
    rw (not_lt, not_eq, btree_insert)
      (ap (λ zs. (k, v) ∷ zs) (btree_insert-last lt eq order key value rest h.1))

-- So does a key that a hash map does not have.
pub hash_insert-new :
    {K V : Type 0} (eq : K → K → Bool) (key : K) (value : V) (xs : List (K × V))
    → All (λ entry. eq key entry.0 ≡ false) xs
    → hash_insert eq key value xs ≡ xs ++ ((key, value) ∷ [])
unfolding hash_insert
hash_insert-new eq key value [] h = refl
hash_insert-new eq key value ((k, v) ∷ rest) h =
    rw (h.0, hash_insert) (ap (λ zs. (k, v) ∷ zs) (hash_insert-new eq key value rest h.1))

apart-last :
    {K V : Type 0} (Apart : K → K → Type 0) (xs : List (K × V)) (entry : K × V) (ys : List (K × V))
    → KeysApart Apart (xs ++ (entry ∷ ys))
    → All (λ earlier. Apart earlier.0 entry.0) xs
apart-last Apart [] entry ys h = tt
apart-last Apart (x ∷ xs) entry ys h = (seen xs h.0, apart-last Apart xs entry ys h.1)
  where
    seen :
        {x : _} (zs : List _)
        → All (λ later. Apart x later.0) (zs ++ (entry ∷ ys))
        → Apart x entry.0
    seen [] k = k.0
    seen (z ∷ zs) k = seen zs k.1

module _ {R : Type 0} ⦃rd : Read R⦄ {view : R → List ℕ} (law : IsRead rd view) {K V : Type 0}
    {d : BorshDeserialize R K} {d' : BorshDeserialize R V} {Valid : K → Type 0} {enc : K → List ℕ}
    {Valid' : V → Type 0} {enc' : V → List ℕ} (h : IsDeserialize view d Valid enc)
    (h' : IsDeserialize view d' Valid' enc') where
  -- The loop, if `insert` puts a key that is apart from the others at the end.
  deserialize_entries-Reads :
      (Apart : K → K → Type 0) (insert : K → V → List (K × V) → List (K × V))
      → ((key : K) (value : V) (xs : List (K × V))
          → All (λ entry. Apart entry.0 key) xs
          → insert key value xs ≡ xs ++ ((key, value) ∷ []))
      → (result xs : List (K × V)) → KeysApart Apart (result ++ xs)
      → All (PairValid Valid Valid') xs
      → Reads view
          (deserialize_entries d d' insert (length xs) result)
          (result ++ xs)
          (encode_items (encode_pair enc enc') xs)
  unfolding deserialize_entries
  deserialize_entries-Reads Apart insert last result [] apart v = rw append-nil (Reads-pure result)
  deserialize_entries-Reads Apart insert last result ((key, value) ∷ xs) apart v =
      let at_end = last key value result (apart-last Apart result (key, value) xs apart) in
      let regroup = append_assoc result ((key, value) ∷ []) xs in
      let rest =
        deserialize_entries-Reads Apart insert last (result ++ ((key, value) ∷ [])) xs
          (rw regroup apart) v.1 in
      let next : Reads view (deserialize_entries d d' insert (length xs) (insert key value result))
          (result ++ ((key, value) ∷ xs)) (encode_items (encode_pair enc enc') xs) =
        rw at_end (
          subst
            (λ z.
              Reads view
                (deserialize_entries d d' insert (length xs) (result ++ ((key, value) ∷ []))) z
                (encode_items (encode_pair enc enc') xs))
            regroup rest) in
      rw (append_assoc (enc key) (enc' value) (encode_items (encode_pair enc enc') xs)) (
        Reads-bind d.deserialize_reader _ (h.reads key v.0.0)
          (Reads-bind d'.deserialize_reader _ (h'.reads value v.0.1) next))

  -- Over any reader that keeps its contract, and for keys and values that are read from their
  -- encodings: from an input that begins with the encoding of valid entries in ascending
  -- order of their keys, fewer than 2 ^ 32, a `BTreeMap` of these entries is read, and the
  -- rest is left. The test of order must be one that does not hold both ways, nor for equal
  -- keys.
  pub deserialize_btree_map-encode_seq :
      (lt eq : K → K → Bool)
      → IsKeyOrder lt eq
      → (xs : List (K × V)) (s : R) (rest : List ℕ) → KeysApart (λ a b. lt a b ≡ true) xs
      → SeqValid (PairValid Valid Valid') xs
      → view s ≡ encode_seq (encode_pair enc enc') xs ++ rest
      → (s' : R) × (deserialize_btree_map d d' lt eq s ≡ (ok xs, s')) × (view s' ≡ rest)
  unfolding deserialize_btree_map
  deserialize_btree_map-encode_seq lt eq order xs s rest apart v e =
      (Reads-bind (deserialize_uint 4) _
          (deserialize_uint-Reads law 4 (length xs) (omega (arith, v.0)))
          (deserialize_entries-Reads (λ a b. lt a b ≡ true) (btree_insert lt eq)
            (btree_insert-last lt eq order) [] xs apart v.1)).takes
        s rest e

  -- Over any reader that keeps its contract, and for keys and values that are read from their
  -- encodings: from an input that begins with the encoding of valid entries with different
  -- keys, fewer than 2 ^ 32, a `HashMap` of these entries is read, and the rest is left.
  pub deserialize_hash_map-encode_seq :
      (eq : K → K → Bool) (xs : List (K × V)) (s : R) (rest : List ℕ)
      → KeysApart (λ a b. eq b a ≡ false) xs
      → SeqValid (PairValid Valid Valid') xs
      → view s ≡ encode_seq (encode_pair enc enc') xs ++ rest
      → (s' : R) × (deserialize_hash_map d d' eq s ≡ (ok xs, s')) × (view s' ≡ rest)
  unfolding deserialize_hash_map
  deserialize_hash_map-encode_seq eq xs s rest apart v e =
      (Reads-bind (deserialize_uint 4) _
          (deserialize_uint-Reads law 4 (length xs) (omega (arith, v.0)))
          (deserialize_entries-Reads (λ a b. eq b a ≡ false) (hash_insert eq) (hash_insert-new eq)
            [] xs apart v.1)).takes
        s rest e
