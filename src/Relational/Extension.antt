-- ===== src/Relational/Extension.antt =====
-- What an accepted transition of relational.py says of its two specifications.
use aipcs_mcp.Prelude.{
  same, eq_of_same, Option-cases, length, take, drop, elem, All, Text, Text-discrete, or-true,
  take-drop, ◌>>◌, >>=-eq-ok, traverse, ok, ◌+◌, ◌≡◌, refl, sym, ap, ◌∙◌, subst, inl, inr, Bool,
  true, false, Option, none, some, List, [], ◌∷◌, ◌++◌, arith,
}
use aipcs_mcp.Relational.Data.{
  Contract, require, Fields-discrete, RelationalField, RelationalEntity, RelationalRelationship,
  RelationalIndex, RelationalSpecification, FieldAddition,
}
use aipcs_mcp.Relational.Shape.{entity_at}
use aipcs_mcp.Relational.Additions.{
  added_field, added_fields, additions_at, all_added_fields, relationship_at, index_at, unchanged,
}

-- A field that existing records may lack.
abbrev pub IsOptional : RelationalField → Type 0
IsOptional f = (f.required ≡ false) × (f.primary_key ≡ false)

-- Every entity, relationship and index is kept, entities may grow at the end by optional fields,
-- and the version is the next one.
pub record IsExtension (current target : RelationalSpecification) : Type 0 where
  pub version : target.schema_version ≡ current.schema_version + 1
  pub entities :
      (name : Text) {s : RelationalEntity}
      → entity_at current.entities name ≡ some s
      → (d : RelationalEntity) × (rest : List RelationalField) × (entity_at target.entities name
          ≡ some d)
        × (d.fields ≡ s.fields ++ rest)
        × All IsOptional rest
  pub relationships :
      All
        (λ (r : RelationalRelationship). relationship_at target.relationships r.name ≡ some r)
        current.relationships
  pub indices :
      All (λ (i : RelationalIndex). index_at target.indices i.name ≡ some i) current.indices

pub require-rest :
    {B : Type 0} (b : Bool) (m : Contract B) {x : B}
    → (require b >> m) ≡ ok x
    → (b ≡ true) × (m ≡ ok x)
require-rest true m h = (refl, h)
require-rest false m h = cc

added-IsOptional :
    (name : Text) (fs : List RelationalField) {added : List FieldAddition}
    → traverse (added_field name) fs ≡ ok added
    → All IsOptional fs
unfolding added_field
added-IsOptional name [] h = tt
added-IsOptional name (f ∷ fs) h =
    let (a, first, h1) = >>=-eq-ok (added_field name f) _ h in
    let (more, rest, _) = >>=-eq-ok (traverse (added_field name) fs) _ h1 in
    (ground arith, added-IsOptional name fs rest)

pub added_fields-ok :
    (name : Text) (s d : RelationalEntity) {added : List FieldAddition}
    → added_fields name s d ≡ ok added
    → (rest : List RelationalField) × (d.fields ≡ s.fields ++ rest) × All IsOptional rest
unfolding added_fields
added_fields-ok name s d h =
    let prefix = take (length s.fields) d.fields in
    let (kept, h1) = require-rest (same Fields-discrete prefix s.fields) _ h in
    let rest = drop (length s.fields) d.fields in
    (
      rest,
      take-drop (length s.fields) d.fields
          ∙ ap (λ t. t ++ rest) (eq_of_same Fields-discrete prefix s.fields kept),
      added-IsOptional name rest h1,
    )

pub additions_at-ok :
    (name : Text) (source destination : Option RelationalEntity) {added : List FieldAddition}
    {s : RelationalEntity}
    → additions_at name source destination ≡ ok added
    → source ≡ some s
    → (d : RelationalEntity) × (destination ≡ some d) × (added_fields name s d ≡ ok added)
additions_at-ok name none destination h e = cc
additions_at-ok name (some s) none h e = cc
additions_at-ok name (some s) (some d) {added} h e =
    (d, refl, subst (λ x. added_fields name x d ≡ ok added) (ground arith) h)

-- The turn of the loop for a name of the list.
pub all_added_fields-ok :
    (source destination : Text → Option RelationalEntity) (names : List Text)
    {all_added : List FieldAddition}
    → all_added_fields source destination names ≡ ok all_added
    → (name : Text) {s : RelationalEntity} → elem Text-discrete name names ≡ true
    → source name ≡ some s
    → (d : RelationalEntity) × (added : List FieldAddition) × (destination name ≡ some d)
      × (added_fields name s d ≡ ok added)
unfolding all_added_fields
all_added_fields-ok source destination [] h name i e = cc
all_added_fields-ok source destination (n ∷ ns) h name {s} i e =
    let (here, first, h1) = >>=-eq-ok (additions_at n (source n) (destination n)) _ h in
    let (more, rest, _) = >>=-eq-ok (all_added_fields source destination ns) _ h1 in
    elim (or-true (same Text-discrete name n) _ i) [
      | inl m ↦
          let p = eq_of_same Text-discrete name n m in
          let turn =
            subst (λ x. additions_at x (source x) (destination x) ≡ ok here) (sym p) first in
          let (d, found, fields) = additions_at-ok name (source name) (destination name) turn e in
          (d, here, found, fields)
      | inr j ↦ all_added_fields-ok source destination ns rest name j e
    ]

pub unchanged-ok :
    {A : Type 0} (d : Discrete A) (name : A → Text) (source : List A) (target : Text → Option A)
    → unchanged d name source target ≡ true
    → All (λ a. target (name a) ≡ some a) source
unchanged-ok d name [] target h = tt
unchanged-ok d name (a ∷ items) target h = elim (Option-cases (target (name a))) [
  | inl e ↦ ground arith
  | inr (b, e) ↦ (ground (arith, eq_of_same d a b), unchanged-ok d name items target (ground arith))
]
