-- ===== src/De/Collections.antt =====
-- borsh/src/de/mod.rs: the collections. A map is the list of its entries, and its `insert` replaces
-- the value of a key that it has; a `BTreeMap` keeps them in ascending order of the keys.
use borsh_rs.Prelude.{ℕ, zero, suc, Bool, List, [], ◌∷◌, if◌then◌else◌}
use borsh_rs.Io.{M, Read, pure, ◌>>=◌}
use package.borsh_rs.De.{Target, BorshDeserialize}
use package.borsh_rs.De.Primitives.{deserialize_uint}
use package.borsh_rs.De.Containers.{deserialize_vec}

-- `HashMap::insert`, for a test of keys.
unfoldable pub hash_insert : {K V : Type 0} → (K → K → Bool) → K → V → List (K × V) → List (K × V)
hash_insert eq key value [] = (key, value) ∷ []
hash_insert eq key value ((k, v) ∷ rest) =
    let later = hash_insert eq key value rest in
    if eq key k then (k, value) ∷ rest else (k, v) ∷ later

-- `BTreeMap::insert`.
unfoldable pub btree_insert :
    {K V : Type 0} → (K → K → Bool) → (K → K → Bool) → K → V → List (K × V) → List (K × V)
btree_insert lt eq key value [] = (key, value) ∷ []
btree_insert lt eq key value ((k, v) ∷ rest) =
    let later = btree_insert lt eq key value rest in
    if lt key k
    then (key, value) ∷ (k, v) ∷ rest
    else if eq key k
    then (k, value) ∷ rest
    else (k, v) ∷ later

-- `BTreeSet::insert`, which leaves an item that is there, and `collect`.
unfoldable pub btree_set_insert :
    {T : Type 0} → (T → T → Bool) → (T → T → Bool) → T → List T → List T
btree_set_insert lt eq item [] = item ∷ []
btree_set_insert lt eq item (x ∷ rest) =
    let later = btree_set_insert lt eq item rest in
    if lt item x then item ∷ x ∷ rest else if eq item x then x ∷ rest else x ∷ later

unfoldable pub collect_btree_set :
    {T : Type 0} → (T → T → Bool) → (T → T → Bool) → List T → List T → List T
unfolding btree_set_insert
collect_btree_set lt eq set [] = set
collect_btree_set lt eq set (item ∷ rest) =
    collect_btree_set lt eq (btree_set_insert lt eq item set) rest

module _ {R : Type 0} ⦃rd : Read R⦄ where
  -- The sequences that are collected from a vector: `VecDeque`, `LinkedList`, `BinaryHeap`, and
  -- `HashSet`, for what `collect` does.
  unfoldable pub deserialize_collected :
      {T C : Type 0} → BorshDeserialize R T → (List T → C) → Target → M R C
  unfolding deserialize_vec
  deserialize_collected d collect t = do vec ← deserialize_vec d t; pure (collect vec)

  unfoldable pub deserialize_btree_set :
      {T : Type 0} → BorshDeserialize R T → (T → T → Bool) → (T → T → Bool) → Target → M R (List T)
  unfolding deserialize_collected collect_btree_set
  deserialize_btree_set d lt eq t = deserialize_collected d (collect_btree_set lt eq []) t

  -- `for _ in 0..len { ... result.insert(key, value); }`
  unfoldable pub deserialize_entries :
      {K V C : Type 0}
      → BorshDeserialize R K
      → BorshDeserialize R V
      → (K → V → C → C)
      → ℕ
      → C
      → M R C
  deserialize_entries d d' insert zero result = pure result
  deserialize_entries d d' insert (suc n) result = do
    key ← d.deserialize_reader
    value ← d'.deserialize_reader
    deserialize_entries d d' insert n (insert key value result)

  unfoldable pub deserialize_hash_map :
      {K V : Type 0}
      → BorshDeserialize R K
      → BorshDeserialize R V
      → (K → K → Bool)
      → M R (List (K × V))
  unfolding deserialize_uint deserialize_entries hash_insert
  deserialize_hash_map d d' eq = do
    len ← deserialize_uint 4
    deserialize_entries d d' (hash_insert eq) len []

  unfoldable pub deserialize_btree_map :
      {K V : Type 0}
      → BorshDeserialize R K
      → BorshDeserialize R V
      → (K → K → Bool)
      → (K → K → Bool)
      → M R (List (K × V))
  unfolding deserialize_uint deserialize_entries btree_insert
  deserialize_btree_map d d' lt eq = do
    len ← deserialize_uint 4
    deserialize_entries d d' (btree_insert lt eq) len []
