-- ===== src/Schema/Needed.antt =====
-- borsh/src/schema.rs apart from how it goes about it: the definitions that a type needs, itself
-- first, and when a map has them.
use borsh_rs.Prelude.{◌%◌, ◌^◌, ◌≡◌, List, [], ◌∷◌, ◌++◌, some, All}
use package.borsh_rs.Schema.{
  Declaration, Definition, Definitions, array, sequence, tuple, enum, applied, join, decimal_usize,
  lookup,
}
use package.borsh_rs.Schema.Types.{
  SchemaType, SchemaTypes, primitive, unit, phantom_data, option, vec, slice, hash_set, btree_set,
  result, hash_map, btree_map, nil, cons, stringify,
}

-- The names of types.
unfoldable mutual
  unfolding applied join decimal_usize

  pub name_of : SchemaType → Declaration
  name_of (primitive p) = stringify p
  name_of unit = "nil"
  name_of phantom_data = "nil"
  name_of (SchemaType.array n t) = applied "Array" (join (name_of t ∷ decimal_usize n ∷ []))
  name_of (option t) = applied "Option" (name_of t)
  name_of (vec t) = applied "Vec" (name_of t)
  name_of (slice t) = applied "Vec" (name_of t)
  name_of (hash_set t) = applied "HashSet" (name_of t)
  name_of (btree_set t) = applied "BTreeSet" (name_of t)
  name_of (result t e) = applied "Result" (join (name_of t ∷ name_of e ∷ []))
  name_of (hash_map k v) = applied "HashMap" (join (name_of k ∷ name_of v ∷ []))
  name_of (btree_map k v) = applied "BTreeMap" (join (name_of k ∷ name_of v ∷ []))
  name_of (SchemaType.tuple ts) = applied "Tuple" (join (names_of ts))

  pub names_of : SchemaTypes → List Declaration
  names_of nil = []
  names_of (cons t ts) = name_of t ∷ names_of ts

-- A map is the sequence of its entries, which are pairs.
abbrev pub pair_entry : SchemaType → SchemaType → Declaration × Definition
pair_entry k v =
    let params = name_of k ∷ name_of v ∷ [] in (applied "Tuple" (join params), tuple params)

-- The definitions of a type and of its parts, but not of the errors of a result.
unfoldable mutual
  unfolding name_of names_of

  pub needed : SchemaType → Definitions
  needed (primitive p) = []
  needed unit = []
  needed phantom_data = []
  needed (SchemaType.array n t) =
      (name_of (SchemaType.array n t), array (n % 2 ^ 32) (name_of t)) ∷ needed t
  needed (option t) =
      (name_of (option t), enum (("None", "nil") ∷ ("Some", name_of t) ∷ [])) ∷ needed t
  needed (vec t) = (name_of (vec t), sequence (name_of t)) ∷ needed t
  needed (slice t) = (name_of (slice t), sequence (name_of t)) ∷ needed t
  needed (hash_set t) = (name_of (hash_set t), sequence (name_of t)) ∷ needed t
  needed (btree_set t) = (name_of (btree_set t), sequence (name_of t)) ∷ needed t
  needed (result t e) =
      (name_of (result t e), enum (("Ok", name_of t) ∷ ("Err", name_of e) ∷ [])) ∷ needed t
  needed (hash_map k v) =
      (name_of (hash_map k v), sequence (pair_entry k v).0) ∷ pair_entry k v ∷ needed k ++ needed v
  needed (btree_map k v) =
      (name_of (btree_map k v), sequence (pair_entry k v).0) ∷ pair_entry k v ∷ needed k ++ needed v
  needed (SchemaType.tuple ts) = (name_of (SchemaType.tuple ts), tuple (names_of ts)) ∷ needed_by ts

  pub needed_by : SchemaTypes → Definitions
  needed_by nil = []
  needed_by (cons t ts) = needed t ++ needed_by ts

-- A map has these definitions.
abbrev pub Defines : Definitions → Definitions → Type 0
Defines definitions entries = All (λ entry. lookup entry.0 definitions ≡ some entry.1) entries
