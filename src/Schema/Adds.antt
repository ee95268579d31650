-- ===== src/Schema/Adds.antt =====
-- borsh/src/schema.rs: each implementation adds the definitions that its type needs.
use Prim.Native.String.{String}
use borsh_rs.Prelude.{◌≡◌, refl, sym, ap, ◌∙◌, List, [], ◌∷◌, ◌++◌}
use borsh_rs.Io.{◌>>◌}
use package.borsh_rs.Schema.{
  Declaration, Definitions, BorshSchema, declarations, add_all_definitions, applied, join, tuple,
  sequence, array_schema, option_schema, result_schema, sequence_schema, map_schema, tuple_schema,
}
use package.borsh_rs.Schema.Types.{
  SchemaType, SchemaTypes, primitive, unit, phantom_data, array, option, vec, slice, hash_set,
  btree_set, result, hash_map, btree_map, nil, cons, schema_of, schemas_of,
}
use package.borsh_rs.Schema.Needed.{name_of, names_of, needed, needed_by}
use package.borsh_rs.Schema.Steps.{add_each, add_each-append, then_pure}

-- What an implementation adds, and its name.
abbrev pub Adds : BorshSchema → Declaration → Definitions → Type 0
Adds s name entries = (s.declaration ≡ name) × (s.add_definitions_recursively ≡ add_each entries)

abbrev AddsAll : List BorshSchema → List Declaration → Definitions → Type 0
AddsAll ts names entries = (declarations ts ≡ names) × (add_all_definitions ts ≡ add_each entries)

sequence-Adds :
    (outer : String) (s : BorshSchema) (name : Declaration) (entries : Definitions)
    → Adds s name entries
    → Adds
        (sequence_schema outer s)
        (applied outer name)
        ((applied outer name, sequence name) ∷ entries)
unfolding sequence_schema add_each
sequence-Adds outer s name entries h = rw (h.0, h.1) (refl, refl)

map-Adds :
    (outer : String) (s t : BorshSchema) (name name' : Declaration) (entries entries' : Definitions)
    → Adds s name entries
    → Adds t name' entries'
    → (let params = name ∷ name' ∷ [] in
        Adds (map_schema outer s t) (applied outer (join params)) (
          (applied outer (join params), sequence (applied "Tuple" (join params)))
            ∷ (applied "Tuple" (join params), tuple params)
            ∷ entries
          ++ entries'))
unfolding map_schema tuple_schema add_each
map-Adds outer s t name name' entries entries' h h' =
    rw (h.0, h.1, h'.0, h'.1, add_each-append entries entries', then_pure (add_each entries'))
      (refl, refl)

mutual
  unfolding schema_of schemas_of name_of names_of needed needed_by array_schema option_schema
      result_schema tuple_schema add_each

  pub schema_of-Adds : (t : SchemaType) → Adds (schema_of t) (name_of t) (needed t)
  schema_of-Adds (primitive p) = (refl, refl)
  schema_of-Adds unit = (refl, refl)
  schema_of-Adds phantom_data = (refl, refl)
  schema_of-Adds (array n t) = let h = schema_of-Adds t in rw (h.0, h.1) (refl, refl)
  schema_of-Adds (option t) = let h = schema_of-Adds t in rw (h.0, h.1) (refl, refl)
  schema_of-Adds (vec t) =
      sequence-Adds "Vec" (schema_of t) (name_of t) (needed t) (schema_of-Adds t)
  schema_of-Adds (slice t) =
      sequence-Adds "Vec" (schema_of t) (name_of t) (needed t) (schema_of-Adds t)
  schema_of-Adds (hash_set t) =
      sequence-Adds "HashSet" (schema_of t) (name_of t) (needed t) (schema_of-Adds t)
  schema_of-Adds (btree_set t) =
      sequence-Adds "BTreeSet" (schema_of t) (name_of t) (needed t) (schema_of-Adds t)
  schema_of-Adds (result t e) =
      let h = schema_of-Adds t in let h' = schema_of-Adds e in rw (h.0, h.1, h'.0) (refl, refl)
  schema_of-Adds (hash_map k v) =
      map-Adds "HashMap" (schema_of k) (schema_of v) (name_of k) (name_of v) (needed k) (needed v)
        (schema_of-Adds k) (schema_of-Adds v)
  schema_of-Adds (btree_map k v) =
      map-Adds "BTreeMap" (schema_of k) (schema_of v) (name_of k) (name_of v) (needed k) (needed v)
        (schema_of-Adds k) (schema_of-Adds v)
  schema_of-Adds (SchemaType.tuple ts) = let h = schemas_of-Adds ts in rw (h.0, h.1) (refl, refl)

  pub schemas_of-Adds : (ts : SchemaTypes) → AddsAll (schemas_of ts) (names_of ts) (needed_by ts)
  schemas_of-Adds nil = (refl, refl)
  schemas_of-Adds (cons t ts) =
      let h = schema_of-Adds t in
      let h' = schemas_of-Adds ts in
      (
        ap (λ n. n ∷ declarations (schemas_of ts)) h.0 ∙ ap (λ ns. name_of t ∷ ns) h'.0,
        ap (λ m. m >> add_all_definitions (schemas_of ts)) h.1
            ∙ ap (λ m. add_each (needed t) >> m) h'.1
            ∙ sym (add_each-append (needed t) (needed_by ts)),
      )
