-- ===== src/Ser/CollectionLaws.antt =====
-- borsh/src/ser/mod.rs: the collections are written as the sequences of what they hold.
use borsh_rs.Prelude.{
  ℕ, ◌^◌, ◌≡◌, refl, sym, ap, ◌∙◌, List, [], ◌∷◌, ◌++◌, append_assoc, All, All-append_left,
  All-append_right, length, lt→ltb,
}
use borsh_rs.Num.{to_le_bytes}
use borsh_rs.Io.{Write, ◌>>◌}
use borsh_rs.Io.Laws.{IsWrite, Emits, Emits-nil, Emits-then}
use borsh_rs.Encoding.{encode_items, encode_seq, encode_pair, SeqValid, PairValid}
use package.borsh_rs.Ser.{BorshSerialize}
use package.borsh_rs.Ser.Laws.{IsSerialize}
use package.borsh_rs.Ser.Compose.{slice-Emits, items-Emits}
use package.borsh_rs.Ser.Containers.{serialize_slice, serialize_items}
use package.borsh_rs.Ser.Collections.{
  VecDeque, serialize_vec_deque, serialize_linked_list, serialize_btree_set, serialize_entries,
  serialize_btree_map,
}

encode_items-append :
    {T : Type 0} (enc : T → List ℕ) (xs ys : List T)
    → encode_items enc (xs ++ ys) ≡ encode_items enc xs ++ encode_items enc ys
encode_items-append enc [] ys = refl
encode_items-append enc (x ∷ xs) ys =
    ap (λ z. enc x ++ z) (encode_items-append enc xs ys)
    ∙ sym (append_assoc (enc x) (encode_items enc xs) (encode_items enc ys))

module _ {W : Type 0} ⦃wr : Write W⦄ (law : IsWrite wr) {T : Type 0} {s : BorshSerialize W T}
    {Valid : T → Type 0} {enc : T → List ℕ} (h : IsSerialize wr s Valid enc) where
  -- For a writer that takes a buffer as it takes its parts, and elements that are written as
  -- their encodings, a `VecDeque` of fewer than 2 ^ 32 valid elements is written as the
  -- sequence of those in its two slices, wherever the ring buffer wraps.
  pub serialize_vec_deque-encode_seq :
      (self : VecDeque T) (w : W)
      → SeqValid Valid (self.front ++ self.back)
      → serialize_vec_deque s self w ≡ wr.write_all (encode_seq enc (self.front ++ self.back)) w
  unfolding serialize_vec_deque
  serialize_vec_deque-encode_seq self w v =
      rw
        (
          lt→ltb (length (self.front ++ self.back)) (2 ^ 32) v.0,
          encode_items-append enc self.front self.back,
        )
        ((Emits-then law (wr.write_all (to_le_bytes 4 (length (self.front ++ self.back))))
            (serialize_slice s self.front >> serialize_slice s self.back)
            (record { writes = λ w. refl })
            (Emits-then law (serialize_slice s self.front) (serialize_slice s self.back)
              (slice-Emits law h self.front (All-append_left Valid self.front self.back v.1))
              (slice-Emits law h self.back
                (All-append_right Valid self.front self.back v.1)))).writes
          w)

  -- For a writer that takes a buffer as it takes its parts, and elements that are written as
  -- their encodings, a `LinkedList` and a `BTreeSet` of fewer than 2 ^ 32 valid elements are
  -- written as the sequence of their elements.
  pub serialize_linked_list-encode_seq :
      (self : List T) (w : W)
      → SeqValid Valid self
      → (serialize_linked_list s self w ≡ wr.write_all (encode_seq enc self) w)
        × (serialize_btree_set s self w ≡ wr.write_all (encode_seq enc self) w)
  unfolding serialize_linked_list serialize_btree_set
  serialize_linked_list-encode_seq self w v =
      let e =
        (Emits-then law (wr.write_all (to_le_bytes 4 (length self))) (serialize_items s self)
            (record { writes = λ w. refl }) (items-Emits law h self v.1)).writes
          w in
      let small = lt→ltb (length self) (2 ^ 32) v.0 in (rw small e, rw small e)

  module _ {U : Type 0} {t : BorshSerialize W U} {Valid' : U → Type 0} {enc' : U → List ℕ}
      (h' : IsSerialize wr t Valid' enc') where
    entries-Emits :
        (xs : List (T × U))
        → All (PairValid Valid Valid') xs
        → Emits wr (serialize_entries s t xs) (encode_items (encode_pair enc enc') xs)
    unfolding serialize_entries
    entries-Emits [] v = Emits-nil law
    entries-Emits ((key, value) ∷ rest) v =
        rw (append_assoc (enc key) (enc' value) (encode_items (encode_pair enc enc') rest)) (
          Emits-then law (s.serialize key) (t.serialize value >> serialize_entries s t rest)
            (h.emits key v.0.0)
            (Emits-then law (t.serialize value) (serialize_entries s t rest) (h'.emits value v.0.1)
              (entries-Emits rest v.1)))

    -- For a writer that takes a buffer as it takes its parts, and keys and values that are
    -- written as their encodings, a `BTreeMap` of fewer than 2 ^ 32 valid entries is
    -- written as the sequence of its entries.
    pub serialize_btree_map-encode_seq :
        (self : List (T × U)) (w : W)
        → SeqValid (PairValid Valid Valid') self
        → serialize_btree_map s t self w ≡ wr.write_all (encode_seq (encode_pair enc enc') self) w
    unfolding serialize_btree_map
    serialize_btree_map-encode_seq self w v = rw (lt→ltb (length self) (2 ^ 32) v.0) (
        (Emits-then law (wr.write_all (to_le_bytes 4 (length self))) (serialize_entries s t self)
            (record { writes = λ w. refl }) (entries-Emits self v.1)).writes
          w)
