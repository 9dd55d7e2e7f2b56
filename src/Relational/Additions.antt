-- ===== src/Relational/Additions.antt =====
-- `_expected_additions`: what a target specification adds to a current one.
use aipcs_mcp.Prelude.{
  same, ◌==◌, length, take, drop, all, keep, elem, subset, unique, sorted, dict_get, Text,
  Text-discrete, text_leb, ◌>>=◌, ◌>>◌, traverse, ok, err, ◌+◌, Bool, false, not, ◌||◌, Option,
  none, some, List, [], ◌∷◌, ◌++◌,
}
use aipcs_mcp.Relational.Data.{
  Contract, require, Fields-discrete, RelationalRelationship-discrete, RelationalIndex-discrete,
  RelationalField, RelationalEntity, RelationalRelationship, RelationalIndex,
  RelationalSpecification, FieldAddition, RelationalAdditions, relational_contract_error,
}
use aipcs_mcp.Relational.Shape.{entity_at, names_of, index_names_of, relationship_names_of}

-- The items of `target` whose names `current` lacks, in the order of their names.
abbrev pub new_names : List Text → List Text → List Text
new_names current target =
    sorted text_leb (keep (λ n. not (elem Text-discrete n current)) (unique Text-discrete target))

-- `tuple(items[name] for name in names)`: a missing name is a KeyError.
abbrev pub items_at : {A : Type 0} → (Text → Option A) → List Text → Contract (List A)
items_at at = traverse (λ n. elim (at n) [ none ↦ err relational_contract_error | some a ↦ ok a ])

unfoldable pub added_field : Text → RelationalField → Contract FieldAddition
added_field entity f = do
  require (not (f.required || f.primary_key))
  ok (record { entity = entity; field = f })

-- One turn of the loop over `sorted(current_entities)`.
unfoldable pub added_fields :
    Text → RelationalEntity → RelationalEntity → Contract (List FieldAddition)
unfolding added_field Fields-discrete
added_fields name source destination = do
  require (same Fields-discrete (take (length source.fields) destination.fields) source.fields)
  traverse (added_field name) (drop (length source.fields) destination.fields)

-- The two lookups of a turn: a missing name is a KeyError.
abbrev pub additions_at :
    Text → Option RelationalEntity → Option RelationalEntity → Contract (List FieldAddition)
additions_at name (some s) (some d) = added_fields name s d
additions_at name _ _ = err relational_contract_error

-- The loop, over the names in order.
unfoldable pub all_added_fields :
    (Text → Option RelationalEntity)
    → (Text → Option RelationalEntity)
    → List Text
    → Contract (List FieldAddition)
unfolding added_fields
all_added_fields source destination [] = ok []
all_added_fields source destination (name ∷ names) = do
  here ← additions_at name (source name) (destination name)
  rest ← all_added_fields source destination names
  ok (here ++ rest)

abbrev pub relationship_at : List RelationalRelationship → Text → Option RelationalRelationship
relationship_at = dict_get Text-discrete (λ (r : RelationalRelationship). r.name)

abbrev pub index_at : List RelationalIndex → Text → Option RelationalIndex
index_at = dict_get Text-discrete (λ (i : RelationalIndex). i.name)

-- Every item of `source` is the item of its name in `target`.
abbrev pub unchanged : {A : Type 0} → Discrete A → (A → Text) → List A → (Text → Option A) → Bool
unchanged d name source target =
    all (λ a. elim (target (name a)) [ none ↦ false | some b ↦ same d a b ]) source

unfoldable pub expected_additions :
    RelationalSpecification → RelationalSpecification → Contract RelationalAdditions
unfolding all_added_fields entity_at Text-discrete RelationalRelationship-discrete
    RelationalIndex-discrete
expected_additions current target = do
  require (subset Text-discrete (names_of current) (names_of target))
  fields ←
      all_added_fields (entity_at current.entities) (entity_at target.entities)
        (sorted text_leb (unique Text-discrete (names_of current)))
  require (subset Text-discrete (relationship_names_of current) (relationship_names_of target))
  require (
      unchanged RelationalRelationship-discrete (λ (r : RelationalRelationship). r.name)
        current.relationships (relationship_at target.relationships))
  found ←
      items_at (relationship_at target.relationships)
        (new_names (relationship_names_of current) (relationship_names_of target))
  let new_entities = new_names (names_of current) (names_of target)
  let relationships =
      keep (λ (r : RelationalRelationship). elem Text-discrete r.source_entity new_entities) found
  require (
      length relationships + length (unique Text-discrete (relationship_names_of current))
      == length (unique Text-discrete (relationship_names_of target)))
  require (subset Text-discrete (index_names_of current) (index_names_of target))
  require (
      unchanged RelationalIndex-discrete (λ (i : RelationalIndex). i.name) current.indices
        (index_at target.indices))
  entities ← items_at (entity_at target.entities) new_entities
  indices ←
      items_at (index_at target.indices)
        (new_names (index_names_of current) (index_names_of target))
  ok (record {
    entities = entities;
    fields = fields;
    relationships = relationships;
    indices = indices;
  })
