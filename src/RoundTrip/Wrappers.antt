-- ===== src/RoundTrip/Wrappers.antt =====
-- borsh/src/ser/mod.rs and borsh/src/de/mod.rs: the types that are written and read as another one.
use borsh_rs.Prelude.{ℕ, ◌+◌, ◌≤◌, ◌^◌, ◌≡◌, ◌≢◌, refl, ap, inl, List}
use borsh_rs.Io.{Read, Write, ok}
use borsh_rs.Io.Laws.{IsRead, Reads-map}
use borsh_rs.Io.Slice.{Slice, slice_read, vec_write}
use borsh_rs.Io.SliceLaws.{slice_read-IsRead, vec_write-IsWrite}
use borsh_rs.Encoding.{SeqValid}
use borsh_rs.Ser.{BorshSerialize, try_to_vec}
use borsh_rs.Ser.Containers.{vec_ser}
use borsh_rs.Ser.Laws.{IsSerialize}
use borsh_rs.Ser.Compose.{vec_ser-IsSerialize}
use borsh_rs.Ser.Wrappers.{serialize_deref, owned_ser}
use borsh_rs.De.{Target, BorshDeserialize, try_from_slice}
use borsh_rs.De.Containers.{vec_de}
use borsh_rs.De.Laws.{IsDeserialize}
use borsh_rs.De.Reads.{plain-IsDeserialize}
use borsh_rs.De.Compose.{vec_de-IsDeserialize}
use borsh_rs.De.Wrappers.{deserialize_owned, owned_de}
use package.borsh_rs.RoundTrip.{try_from_slice-try_to_vec}

module _ {T B : Type 0} (into : T → B) (as_ref : B → T) where
  pub owned_ser-IsSerialize :
      {W : Type 0} ⦃wr : Write W⦄ {s : BorshSerialize W T} {Valid : T → Type 0} {enc : T → List ℕ}
      → IsSerialize wr s Valid enc
      → IsSerialize wr (owned_ser s as_ref) (λ b. Valid (as_ref b)) (λ b. enc (as_ref b))
  unfolding serialize_deref
  owned_ser-IsSerialize h = record {
    emits = λ b valid. h.emits (as_ref b) valid;
    slices = λ xs. inl refl;
  }

  pub owned_de-IsDeserialize :
      {R : Type 0} ⦃rd : Read R⦄ {view : R → List ℕ} {d : BorshDeserialize R T} {Valid : T → Type 0}
      {enc : T → List ℕ} (law : IsRead rd view) (size : ℕ)
      → size ≢ 0
      → ((b : B) → into (as_ref b) ≡ b)
      → IsDeserialize view d Valid enc
      → IsDeserialize view (owned_de d into size) (λ b. Valid (as_ref b)) (λ b. enc (as_ref b))
  unfolding deserialize_owned
  owned_de-IsDeserialize {d} law size sized same h = plain-IsDeserialize law _ size sized λ b valid.
      Reads-map d.deserialize_reader _ (h.reads (as_ref b) valid)
        (λ s. ap (λ z. (ok z, s)) (same b))

  module _ {s : BorshSerialize (List ℕ) T} {d : BorshDeserialize Slice T} {Valid : T → Type 0}
      {enc : T → List ℕ} where
    -- A type that is written and read as another one is read back, if going there and back does
    -- not change it.
    pub try_from_slice-owned_ser :
        IsSerialize vec_write s Valid enc
        → IsDeserialize (λ b. b) d Valid enc
        → ((b : B) → into (as_ref b) ≡ b)
        → (size : ℕ) → size ≢ 0
        → (t : Target) → 2 ^ 32 ≤ t.usize_max + 1
        → (bs : List B) → SeqValid (λ b. Valid (as_ref b)) bs
        → (bytes : List ℕ) × (try_to_vec (vec_ser (owned_ser s as_ref)) bs ≡ ok bytes)
          × (try_from_slice (vec_de (owned_de d into size) t) bytes ≡ ok bs)
    try_from_slice-owned_ser hs hd same size sized t wide bs valid =
        try_from_slice-try_to_vec _
          (vec_ser-IsSerialize vec_write-IsWrite (owned_ser-IsSerialize hs)) _
          (vec_de-IsDeserialize slice_read-IsRead
            (owned_de-IsDeserialize slice_read-IsRead size sized same hd) t wide)
          bs valid
