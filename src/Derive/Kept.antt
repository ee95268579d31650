-- ===== src/Derive/Kept.antt =====
-- What generated code writes and reads, apart from how: the fields that are kept, in order.
use borsh_rs.Prelude.{
  ℕ, ◌≡◌, refl, Bool, true, false, not, List, [], ◌∷◌, ◌++◌, All, Bool-cases, inl, inr,
  if◌then◌else◌,
}
use borsh_rs.Io.{Read, Write, ◌>>◌}
use borsh_rs.Io.Laws.{
  IsRead, IsWrite, Emits, Emits-nil, Emits-then, Reads, Reads-bind, Reads-map, Reads-pure,
}
use borsh_rs.Ser.{BorshSerialize}
use borsh_rs.Ser.Laws.{IsSerialize}
use borsh_rs.De.{BorshDeserialize}
use borsh_rs.De.Laws.{IsDeserialize}
use package.borsh_rs.Derive.{Field, contains_skip}
use package.borsh_rs.Derive.Code.{
  Ident, same_ident, Init, default_value, read_value, Values, serialize_name, serialize_names,
  run_inits,
}

-- A field without `#[borsh_skip]`.
abbrev pub not_skipped : {Ty : Type 0} → Field Ty → Bool
not_skipped field = not (contains_skip field.attrs)

abbrev pub every_field : {Ty : Type 0} → Field Ty → Bool
every_field field = true

module _ {Ty : Type 0} (keep : Field Ty → Bool) where
  -- The encodings of the kept fields.
  abbrev pub encode_kept :
      {El : Ty → Type 0}
      → ((a : Ty) → El a → List ℕ)
      → (fields : List (Field Ty)) → Values El fields
      → List ℕ
  encode_kept enc [] v = []
  encode_kept enc (field ∷ fields) (v, vs) =
      if keep field then enc field.ty v ++ encode_kept enc fields vs else encode_kept enc fields vs

  -- The kept fields are valid.
  abbrev pub KeptValid :
      {El : Ty → Type 0}
      → ((a : Ty) → El a → Type 0)
      → (fields : List (Field Ty)) → Values El fields
      → Type 0
  KeptValid Valid [] v = Unit
  KeptValid Valid (field ∷ fields) (v, vs) =
      (keep field ≡ true → Valid field.ty v) × KeptValid Valid fields vs

  -- The others are lost.
  abbrev pub restored :
      {El : Ty → Type 0}
      → ((a : Ty) → El a)
      → (fields : List (Field Ty)) → Values El fields
      → Values El fields
  restored default_of [] v = tt
  restored default_of (field ∷ fields) (v, vs) =
      (if keep field then v else default_of field.ty, restored default_of fields vs)

  -- What a macro that keeps these fields generates to read them.
  unfoldable pub inits_of : List (Field Ty) → List Init
  inits_of [] = []
  inits_of (field ∷ fields) = (if keep field then read_value else default_value) ∷ inits_of fields

  -- And to write them, for the names of all fields.
  unfoldable pub names_of : List Ident → List (Field Ty) → List Ident
  names_of (x ∷ scope) (field ∷ fields) =
      let rest = names_of scope fields in if keep field then x ∷ rest else rest
  names_of scope _ = []

-- No name occurs twice.
abbrev pub Distinct : List Ident → Type 0
Distinct [] = Unit
Distinct (x ∷ xs) = All (λ y. same_ident y x ≡ false) xs × Distinct xs

-- There is a name for each field.
abbrev pub InScope : {Ty : Type 0} → List Ident → List (Field Ty) → Type 0
InScope [] [] = Unit
InScope [] (field ∷ fields) = ⊥
InScope (x ∷ scope) [] = ⊥
InScope (x ∷ scope) (field ∷ fields) = (same_ident x x ≡ true) × InScope scope fields

names_of-All :
    {Ty : Type 0} (keep : Field Ty → Bool) (P : Ident → Type 0) (scope : List Ident)
    (fields : List (Field Ty))
    → All P scope
    → All P (names_of keep scope fields)
unfolding names_of
names_of-All keep P [] fields h = tt
names_of-All keep P (x ∷ scope) [] h = tt
names_of-All keep P (x ∷ scope) (field ∷ fields) h = elim (Bool-cases (keep field)) [
  | inl e ↦ rw (e, names_of) (h.0, names_of-All keep P scope fields h.1)
  | inr e ↦ rw (e, names_of) (names_of-All keep P scope fields h.1)
]

module _ {W Ty : Type 0} ⦃wr : Write W⦄ (law : IsWrite wr) {El : Ty → Type 0}
    {ser : (a : Ty) → BorshSerialize W (El a)} {Valid : (a : Ty) → El a → Type 0}
    {enc : (a : Ty) → El a → List ℕ} (h : (a : Ty) → IsSerialize wr (ser a) (Valid a) (enc a)) where
  -- A field in front that no statement is about.
  serialize_names-skip :
      (body : List Ident) (x : Ident) (scope : List Ident) (field : Field Ty)
      (fields : List (Field Ty)) (v : El field.ty) (vs : Values El fields)
      → All (λ y. same_ident y x ≡ false) body
      → serialize_names ser body (x ∷ scope) (field ∷ fields) (v, vs)
        ≡ serialize_names ser body scope fields vs
  unfolding serialize_names
  serialize_names-skip [] x scope field fields v vs fresh = refl
  serialize_names-skip (y ∷ body) x scope field fields v vs fresh =
      rw (fresh.0, serialize_name, serialize_names-skip body x scope field fields v vs fresh.1) refl

  -- The kept fields are written in order.
  pub serialize_names-Emits :
      (keep : Field Ty → Bool) (scope : List Ident) (fields : List (Field Ty))
      (v : Values El fields)
      → Distinct scope
      → InScope scope fields
      → KeptValid keep Valid fields v
      → Emits wr
          (serialize_names ser (names_of keep scope fields) scope fields v)
          (encode_kept keep enc fields v)
  unfolding serialize_names names_of
  serialize_names-Emits keep [] [] v d i valid = Emits-nil law
  serialize_names-Emits keep [] (field ∷ fields) v d i valid = absurd i
  serialize_names-Emits keep (x ∷ scope) [] v d i valid = absurd i
  serialize_names-Emits keep (x ∷ scope) (field ∷ fields) (v, vs) d i valid =
      let later = serialize_names-Emits keep scope fields vs d.1 i.1 valid.1 in
      let fresh = names_of-All keep (λ y. same_ident y x ≡ false) scope fields d.0 in
      let skip =
        serialize_names-skip (names_of keep scope fields) x scope field fields v vs fresh in
      let here : serialize_names ser (x ∷ names_of keep scope fields) (x ∷ scope) (field ∷ fields)
            (v, vs)
          ≡ ((ser field.ty).serialize v
              >> serialize_names ser (names_of keep scope fields) scope fields vs) =
        rw (i.0, serialize_name, skip) refl in
      elim (Bool-cases (keep field)) [
        | inl e ↦ rw (e, here) (Emits-then law _ _ ((h field.ty).emits v (valid.0 e)) later)
        | inr e ↦ rw (e, skip) later
      ]

module _ {R Ty : Type 0} ⦃rd : Read R⦄ {view : R → List ℕ} (law : IsRead rd view) {El : Ty → Type 0}
    {de : (a : Ty) → BorshDeserialize R (El a)} (default_of : (a : Ty) → El a)
    {Valid : (a : Ty) → El a → Type 0} {enc : (a : Ty) → El a → List ℕ}
    (h : (a : Ty) → IsDeserialize view (de a) (Valid a) (enc a)) where
  -- The kept fields are read back.
  pub run_inits-Reads :
      (keep : Field Ty → Bool) (fields : List (Field Ty)) (v : Values El fields)
      → KeptValid keep Valid fields v
      → Reads view
          (run_inits de default_of (inits_of keep fields) fields)
          (restored keep default_of fields v)
          (encode_kept keep enc fields v)
  unfolding run_inits inits_of
  run_inits-Reads keep [] v valid = Reads-pure tt
  run_inits-Reads keep (field ∷ fields) (v, vs) valid =
      let later = run_inits-Reads keep fields vs valid.1 in
      elim (Bool-cases (keep field)) [
        | inl e ↦
            rw (e, inits_of)
              (Reads-bind _ _ ((h field.ty).reads v (valid.0 e)) (Reads-map _ _ later (λ s. refl)))
        | inr e ↦ rw (e, inits_of) (Reads-map _ _ later (λ s. refl))
      ]
