-- ===== src/Ser/Collections.antt =====
-- borsh/src/ser/mod.rs: the collections. A collection is given by
-- what its iterator yields, in that order.
use borsh_rs.Prelude.{Bool, List, [], ◌∷◌, ◌++◌, length, if◌then◌else◌}
use borsh_rs.Num.{to_le_bytes}
use borsh_rs.Io.{M, Write, pure, ◌>>=◌, ◌>>◌}
use package.borsh_rs.Ser.{BorshSerialize, u32_try_from}
use package.borsh_rs.Ser.Primitives.{serialize_uint}
use package.borsh_rs.Ser.Containers.{serialize_items, serialize_slice}

-- `VecDeque`: the ring buffer's two slices.
pub record VecDeque (T : Type 0) : Type 0 where
  pub front : List T
  pub back : List T

-- `sort_by` with `partial_cmp`, for keys that it can always compare: a stable sort.
module _ {A K : Type 0} (key : A → K) (le : K → K → Bool) where
  unfoldable pub insert_by : A → List A → List A
  insert_by a [] = a ∷ []
  insert_by a (b ∷ rest) =
      let later = insert_by a rest in if le (key a) (key b) then a ∷ b ∷ rest else b ∷ later

  unfoldable pub sort_by : List A → List A
  unfolding insert_by
  sort_by [] = []
  sort_by (a ∷ rest) = insert_by a (sort_by rest)

module _ {W : Type 0} ⦃wr : Write W⦄ where
  module _ {T : Type 0} (s : BorshSerialize W T) where
    unfoldable pub serialize_vec_deque : VecDeque T → M W (Unit {0})
    unfolding serialize_slice
    serialize_vec_deque self = do
      n ← u32_try_from (length (self.front ++ self.back))
      wr.write_all (to_le_bytes 4 n)
      serialize_slice s self.front
      serialize_slice s self.back

    -- `LinkedList`, and `BinaryHeap`, whose iterator has an arbitrary order.
    unfoldable pub serialize_linked_list : List T → M W (Unit {0})
    unfolding serialize_items
    serialize_linked_list self = do
      n ← u32_try_from (length self)
      wr.write_all (to_le_bytes 4 n)
      serialize_items s self

    -- `BTreeSet`: the iterator yields the items in ascending order.
    unfoldable pub serialize_btree_set : List T → M W (Unit {0})
    unfolding serialize_uint serialize_items
    serialize_btree_set self = do
      n ← u32_try_from (length self)
      serialize_uint 4 n
      serialize_items s self

    unfoldable pub serialize_hash_set : (T → T → Bool) → List T → M W (Unit {0})
    unfolding serialize_btree_set sort_by
    serialize_hash_set le self = serialize_btree_set (sort_by (λ x. x) le self)

  module _ {K V : Type 0} (s : BorshSerialize W K) (t : BorshSerialize W V) where
    -- `for (key, value) in self`
    unfoldable pub serialize_entries : List (K × V) → M W (Unit {0})
    serialize_entries [] = pure tt
    serialize_entries ((key, value) ∷ rest) = do
      s.serialize key
      t.serialize value
      serialize_entries rest

    -- `BTreeMap`: the iterator yields the entries in ascending order of their keys.
    unfoldable pub serialize_btree_map : List (K × V) → M W (Unit {0})
    unfolding serialize_uint serialize_entries
    serialize_btree_map self = do
      n ← u32_try_from (length self)
      serialize_uint 4 n
      serialize_entries self

    unfoldable pub serialize_hash_map : (K → K → Bool) → List (K × V) → M W (Unit {0})
    unfolding serialize_btree_map sort_by
    serialize_hash_map le self = serialize_btree_map (sort_by (λ entry. entry.0) le self)
