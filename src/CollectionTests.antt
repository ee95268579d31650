-- ===== src/CollectionTests.antt =====
-- The theorems on collections and addresses at concrete inputs.
use borsh_rs.Prelude.{
  ℕ, ◌*◌, Bool-cases, leb→gt, ◌≡◌, refl, inl, inr, List, [], ◌∷◌, ◌++◌, arith, leb, leb→le, le→leb,
}
use borsh_rs.Io.{ok}
use borsh_rs.Io.Slice.{Slice, vec_write, slice_read}
use borsh_rs.Io.SliceLaws.{slice_read-IsRead}
use borsh_rs.Num.{to_le_bytes}
use borsh_rs.Ser.Primitives.{u8_ser, uint_ser}
use borsh_rs.Ser.Collections.{VecDeque, serialize_hash_map}
use borsh_rs.Ser.Canonical.{IsOrder, swapped, serialize_hash_map-Reordered}
use borsh_rs.Ser.Net.{SocketAddr, v6}
use borsh_rs.De.Net.{deserialize_socket_addr}
use borsh_rs.De.NetReads.{encode_socket_addr, kept, deserialize_socket_addr-kept}
use borsh_rs.De.Primitives.{uint_de}
use borsh_rs.De.Reads.{uint_de-IsDeserialize}
use borsh_rs.De.Collections.{deserialize_btree_map}
use borsh_rs.De.MapOrder.{lt_of, eq_of, deserialize_btree_map-sort_by}
use borsh_rs.Ser.Collections.{sort_by}

leb-IsOrder : IsOrder leb
leb-IsOrder = record {
  total = λ a b. elim (Bool-cases (leb a b)) [
    | inl e ↦ inl e
    | inr e ↦ inr (le→leb b a (omega (arith, leb→gt a b e)))
  ];
  antisym = λ a b h k. omega (arith, leb→le a b h, leb→le b a k);
  transitive = λ a b c h k. le→leb a c (omega (arith, leb→le a b h, leb→le b c k));
}

abbrev ages : List (ℕ × ℕ)
ages = (3, 30) ∷ (1, 10) ∷ []

abbrev ages_again : List (ℕ × ℕ)
ages_again = (1, 10) ∷ (3, 30) ∷ []

serialize_hash_map-Reordered_example :
    serialize_hash_map ⦃wr = vec_write⦄ u8_ser (uint_ser 2) leb ages
    ≡ serialize_hash_map ⦃wr = vec_write⦄ u8_ser (uint_ser 2) leb ages_again
serialize_hash_map-Reordered_example =
    serialize_hash_map-Reordered u8_ser (uint_ser 2) leb-IsOrder (λ k. 10 * k) ages ages_again
      (refl, (refl, tt)) (swapped (3, 30) (1, 10) [])

abbrev map_bytes : List ℕ
map_bytes = 2 ∷ 0 ∷ 0 ∷ 0 ∷ 1 ∷ 10 ∷ 0 ∷ 3 ∷ 30 ∷ 0 ∷ []

deserialize_btree_map-sort_by_example :
    (s' : Slice) × (deserialize_btree_map
        (uint_de 1)
        (uint_de 2)
        (lt_of leb)
        (eq_of leb)
        (2 ∷ 0 ∷ 0 ∷ 0 ∷ 3 ∷ 30 ∷ 0 ∷ 1 ∷ 10 ∷ 0 ∷ [])
      ≡ (ok ages_again, s'))
    × (s' ≡ [])
unfolding to_le_bytes sort_by
deserialize_btree_map-sort_by_example =
    deserialize_btree_map-sort_by leb leb-IsOrder slice_read-IsRead
      (uint_de-IsDeserialize slice_read-IsRead 1 (omega arith))
      (uint_de-IsDeserialize slice_read-IsRead 2 (omega arith)) (λ k. 10 * k) ages
      (2 ∷ 0 ∷ 0 ∷ 0 ∷ 3 ∷ 30 ∷ 0 ∷ 1 ∷ 10 ∷ 0 ∷ []) [] (refl, (refl, tt))
      (((λ e. omega arith), tt), (tt, tt))
      (omega arith, ((omega arith, omega arith), ((omega arith, omega arith), tt))) refl

-- [::1]:80 with a flow label, of which nothing is left.
abbrev loopback : SocketAddr
loopback = v6 (record {
  ip = 0 ∷ 0 ∷ 0 ∷ 0 ∷ 0 ∷ 0 ∷ 0 ∷ 0 ∷ 0 ∷ 0 ∷ 0 ∷ 0 ∷ 0 ∷ 0 ∷ 0 ∷ 1 ∷ [];
  port = 80;
  flowinfo = 5;
  scope_id = 0;
})

deserialize_socket_addr-kept_example :
    (s' : Slice) × (deserialize_socket_addr (encode_socket_addr loopback ++ [])
      ≡ (ok (kept loopback), s'))
    × (s' ≡ [])
deserialize_socket_addr-kept_example =
    deserialize_socket_addr-kept slice_read-IsRead loopback (encode_socket_addr loopback ++ []) []
      (refl, omega arith) refl

abbrev wrapped : VecDeque ℕ
wrapped = record { front = 1 ∷ 2 ∷ []; back = 3 ∷ [] }
