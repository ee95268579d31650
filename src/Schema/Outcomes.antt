-- ===== src/Schema/Outcomes.antt =====
-- borsh/src/schema.rs: what adding several definitions comes to.
use borsh_rs.Prelude.{◌≡◌, ◌⊎◌, refl, sym, ◌∙◌, inl, inr, [], ◌∷◌, All}
use borsh_rs.Io.{ok, panicked}
use package.borsh_rs.Schema.{Declaration, Definition, Definitions}
use package.borsh_rs.Schema.Needed.{Defines}
use package.borsh_rs.Schema.Steps.{
  add_each, lookup-head, Extends, Extends-cons, UniqueNames, Agrees, lookup-Agrees,
  add_definition-cases,
}

abbrev pub Succeeds : Definitions → Definitions → Type 0
Succeeds entries definitions =
    (definitions' : Definitions) × (add_each entries definitions ≡ (ok tt, definitions'))
    × Extends definitions definitions'
    × Defines definitions' entries
    × (UniqueNames definitions → UniqueNames definitions')

abbrev pub Fails : Definitions → Definitions → Type 0
Fails entries definitions =
    (definitions' : Definitions) × (add_each entries definitions ≡ (panicked, definitions'))
    × Extends definitions definitions'
    × ((meaning : Declaration → Definition)
        → Agrees meaning definitions
        → Agrees meaning entries
        → ⊥)

-- All are added, or a name would have two meanings.
pub add_each-outcome :
    (entries definitions : Definitions) → Succeeds entries definitions ⊎ Fails entries definitions
unfolding add_each
add_each-outcome [] definitions = inl (definitions, refl, (λ n d e. e), tt, (λ u. u))
add_each-outcome ((name, definition) ∷ entries) definitions =
    elim (add_definition-cases name definition definitions) [
      | inl (free, e) ↦
          let grown = Extends-cons name definition definitions free in
          elim (add_each-outcome entries ((name, definition) ∷ definitions)) [
            | inl (after, run, kept, defined, unique) ↦ inl (
              after,
              rw e run,
              (λ n d h. kept n d (grown n d h)),
              (kept name definition (lookup-head name definition definitions), defined),
              (λ u. unique (free, u)),
            )
            | inr (after, run, kept, clash) ↦ inr (
              after,
              rw e run,
              (λ n d h. kept n d (grown n d h)),
              (λ meaning agrees h. clash meaning (h.0, agrees) h.1),
            )
          ]
      | inr (inl (found, e)) ↦ elim (add_each-outcome entries definitions) [
        | inl (after, run, kept, defined, unique) ↦
            inl (after, rw e run, kept, (kept name definition found, defined), unique)
        | inr (after, run, kept, clash) ↦
            inr (after, rw e run, kept, (λ meaning agrees h. clash meaning agrees h.1))
      ]
      | inr (inr (existing_def, found, differ, e)) ↦ inr (
        definitions,
        rw e refl,
        (λ n d h. h),
        (λ meaning agrees h.
            differ (sym (lookup-Agrees meaning name existing_def definitions agrees found) ∙ h.0)),
      )
    ]

-- And nothing else is.
pub add_each-All {ℓ} :
    (P : Declaration × Definition → Type ℓ) (entries definitions : Definitions)
    → All P entries
    → All P definitions
    → All P (add_each entries definitions).1
unfolding add_each
add_each-All P [] definitions p q = q
add_each-All P ((name, definition) ∷ entries) definitions p q =
    elim (add_definition-cases name definition definitions) [
      | inl (free, e) ↦
          rw e (add_each-All P entries ((name, definition) ∷ definitions) p.1 (p.0, q))
      | inr (inl (found, e)) ↦ rw e (add_each-All P entries definitions p.1 q)
      | inr (inr (existing_def, found, differ, e)) ↦ rw e q
    ]
