-- ===== src/Schema/Closed.antt =====
-- borsh/src/schema.rs: whether a container has a definition for each name in it.
use borsh_rs.Prelude.{
  ◌≡◌, ◌⊎◌, refl, inl, inr, List, [], ◌∷◌, ◌++◌, some, All, All-append, All-append_left,
  All-append_right,
}
use borsh_rs.Io.{ok}
use package.borsh_rs.Schema.{
  Declaration, Definition, Definitions, Fields, named_fields, unnamed_fields, empty,
  BorshSchemaContainer, schema_container, lookup, enum, tuple, sequence, struct,
}
use package.borsh_rs.Schema.Types.{
  Primitive, SchemaType, SchemaTypes, primitive, unit, phantom_data, option, vec, slice, hash_set,
  btree_set, result, hash_map, btree_map, nil, cons, stringify, schema_of,
}
use package.borsh_rs.Schema.Needed.{name_of, names_of, needed, needed_by, Defines}
use package.borsh_rs.Schema.Laws.{schema_container-Defines, Adds-nothing_else}
use package.borsh_rs.Schema.Adds.{schema_of-Adds}

-- The second halves.
abbrev pub declarations_of : List (Declaration × Declaration) → List Declaration
declarations_of [] = []
declarations_of (x ∷ xs) = x.1 ∷ declarations_of xs

abbrev pub field_declarations : Fields → List Declaration
field_declarations (named_fields fields) = declarations_of fields
field_declarations (unnamed_fields fields) = fields
field_declarations empty = []

-- The names of types in a definition.
abbrev pub references : Definition → List Declaration
references (Definition.array length elements) = elements ∷ []
references (sequence elements) = elements ∷ []
references (tuple elements) = elements
references (enum variants) = declarations_of variants
references (struct fields) = field_declarations fields

-- A name that needs no definition, or has one.
abbrev pub Described : Definitions → Declaration → Type 0
Described definitions name =
    ((name ≡ "nil") ⊎ ((p : Primitive) × (stringify p ≡ name)))
    ⊎ ((definition : Definition) × (lookup name definitions ≡ some definition))

abbrev pub Closed : Definitions → Declaration × Definition → Type 0
Closed definitions entry = All (Described definitions) (references entry.1)

-- The errors of results need no definitions.
unfoldable mutual
  pub PlainErrors : SchemaType → Type 0
  PlainErrors (primitive p) = Unit
  PlainErrors unit = Unit
  PlainErrors phantom_data = Unit
  PlainErrors (SchemaType.array n t) = PlainErrors t
  PlainErrors (option t) = PlainErrors t
  PlainErrors (vec t) = PlainErrors t
  PlainErrors (slice t) = PlainErrors t
  PlainErrors (hash_set t) = PlainErrors t
  PlainErrors (btree_set t) = PlainErrors t
  PlainErrors (result t e) = PlainErrors t × (needed e ≡ [])
  PlainErrors (hash_map k v) = PlainErrors k × PlainErrors v
  PlainErrors (btree_map k v) = PlainErrors k × PlainErrors v
  PlainErrors (SchemaType.tuple ts) = AllPlainErrors ts

  pub AllPlainErrors : SchemaTypes → Type 0
  AllPlainErrors nil = Unit
  AllPlainErrors (cons t ts) = PlainErrors t × AllPlainErrors ts

module _ (definitions : Definitions) where
  -- A type whose definitions are there is described.
  name_of-Described :
      (t : SchemaType) → Defines definitions (needed t) → Described definitions (name_of t)
  unfolding needed name_of
  name_of-Described (primitive p) h = inl (inr (p, refl))
  name_of-Described unit h = inl (inl refl)
  name_of-Described phantom_data h = inl (inl refl)
  name_of-Described (SchemaType.array n t) h = inr (_, h.0)
  name_of-Described (option t) h = inr (_, h.0)
  name_of-Described (vec t) h = inr (_, h.0)
  name_of-Described (slice t) h = inr (_, h.0)
  name_of-Described (hash_set t) h = inr (_, h.0)
  name_of-Described (btree_set t) h = inr (_, h.0)
  name_of-Described (result t e) h = inr (_, h.0)
  name_of-Described (hash_map k v) h = inr (_, h.0)
  name_of-Described (btree_map k v) h = inr (_, h.0)
  name_of-Described (SchemaType.tuple ts) h = inr (_, h.0)

  names_of-Described :
      (ts : SchemaTypes)
      → Defines definitions (needed_by ts)
      → All (Described definitions) (names_of ts)
  unfolding needed_by names_of
  names_of-Described nil h = tt
  names_of-Described (cons t ts) h = (
    name_of-Described t (All-append_left _ (needed t) (needed_by ts) h),
    names_of-Described ts (All-append_right _ (needed t) (needed_by ts) h),
  )

  abbrev AllClosed : Definitions → Type 0
  AllClosed entries = All (Closed definitions) entries

  map-Closed :
      (k v : SchemaType)
      → Defines definitions (needed k ++ needed v)
      → AllClosed (needed k)
      → AllClosed (needed v)
      → (Described definitions (name_of k) × (Described definitions (name_of v) × Unit {0}))
        × AllClosed (needed k ++ needed v)
  map-Closed k v h p q = (
    (
      name_of-Described k (All-append_left _ (needed k) (needed v) h),
      (name_of-Described v (All-append_right _ (needed k) (needed v) h), tt),
    ),
    All-append _ (needed k) (needed v) p q,
  )

  mutual
    unfolding needed needed_by name_of names_of PlainErrors AllPlainErrors

    needed-Closed :
        (t : SchemaType) → PlainErrors t → Defines definitions (needed t) → AllClosed (needed t)
    needed-Closed (primitive p) plain h = tt
    needed-Closed unit plain h = tt
    needed-Closed phantom_data plain h = tt
    needed-Closed (SchemaType.array n t) plain h =
        ((name_of-Described t h.1, tt), needed-Closed t plain h.1)
    needed-Closed (option t) plain h =
        ((inl (inl refl), (name_of-Described t h.1, tt)), needed-Closed t plain h.1)
    needed-Closed (vec t) plain h = ((name_of-Described t h.1, tt), needed-Closed t plain h.1)
    needed-Closed (slice t) plain h = ((name_of-Described t h.1, tt), needed-Closed t plain h.1)
    needed-Closed (hash_set t) plain h = ((name_of-Described t h.1, tt), needed-Closed t plain h.1)
    needed-Closed (btree_set t) plain h = ((name_of-Described t h.1, tt), needed-Closed t plain h.1)
    needed-Closed (result t e) plain h =
        let none_needed : Defines definitions (needed e) = rw plain.1 tt in
        (
          (name_of-Described t h.1, (name_of-Described e none_needed, tt)),
          needed-Closed t plain.0 h.1,
        )
    needed-Closed (hash_map k v) plain h = (
      (inr (_, h.1.0), tt),
      map-Closed k v h.1.1 (needed-Closed k plain.0 (All-append_left _ (needed k) (needed v) h.1.1))
          (needed-Closed v plain.1 (All-append_right _ (needed k) (needed v) h.1.1)),
    )
    needed-Closed (btree_map k v) plain h = (
      (inr (_, h.1.0), tt),
      map-Closed k v h.1.1 (needed-Closed k plain.0 (All-append_left _ (needed k) (needed v) h.1.1))
          (needed-Closed v plain.1 (All-append_right _ (needed k) (needed v) h.1.1)),
    )
    needed-Closed (SchemaType.tuple ts) plain h =
        (names_of-Described ts h.1, needed_by-Closed ts plain h.1)

    needed_by-Closed :
        (ts : SchemaTypes)
        → AllPlainErrors ts
        → Defines definitions (needed_by ts)
        → AllClosed (needed_by ts)
    needed_by-Closed nil plain h = tt
    needed_by-Closed (cons t ts) plain h =
        All-append _ (needed t) (needed_by ts)
          (needed-Closed t plain.0 (All-append_left _ (needed t) (needed_by ts) h))
          (needed_by-Closed ts plain.1 (All-append_right _ (needed t) (needed_by ts) h))

-- For every type with an implementation of `BorshSchema` in the library, the schema types
-- themselves apart, none of whose results has an error type that needs definitions: in a
-- container that `schema_container` returns, each name of a type, in a definition or as the
-- declaration, is that of a primitive type or has a definition.
pub schema_container-Closed :
    (t : SchemaType) (c : BorshSchemaContainer)
    → PlainErrors t
    → schema_container (schema_of t) ≡ ok c
    → Described c.definitions c.declaration × All (Closed c.definitions) c.definitions
schema_container-Closed t c plain e =
    let (same, unique, defined, only) = schema_container-Defines t c e in
    (
      rw same (name_of-Described c.definitions t defined),
      Adds-nothing_else (schema_of t) (name_of t) (needed t) (schema_of-Adds t) c
          (Closed c.definitions) e (needed-Closed c.definitions t plain defined),
    )
