-- ===== src/Relational/Classify.antt =====
-- `classify_transition`: the one accepted kind of change between two manifests.
use aipcs_mcp.Prelude.{
  leb, same, ◌==◌, length, take, drop, elem, distinct, subset, unique, sorted, dict_get, is_nil,
  Text, Text-discrete, text_leb, ◌>>=◌, ◌>>◌, traverse, ok, err, ℕ, ◌+◌, ◌-◌, Bool, false, not,
  ◌&&◌, ◌||◌, Option, none, some, List, [], ◌∷◌, ◌++◌, map,
}
use aipcs_mcp.Manifest.{
  OptionText-discrete, RelationshipDefinition-discrete, IndexDefinition-discrete, History-discrete,
  AttributeDefinition, EntityDefinition, RelationshipDefinition, IndexDefinition,
  MigrationHistoryEntry, ManifestV2, entity_named, entity_names, index_names,
}
use aipcs_mcp.Relational.Data.{
  Contract, require, RelationalAdditions-discrete, MetadataChange-discrete,
  MetadataChanges-discrete, RelationalRelationship, RelationalIndex, RelationalSpecification,
  FieldAddition, RelationalAdditions, MetadataChange, RelationalTransition,
  relational_contract_error, entity_description,
}
use aipcs_mcp.Relational.Shape.{entity_at}
use aipcs_mcp.Relational.Compile.{
  detached_manifest, field_of, relationship_of, index_of, compile_checked_manifest,
}
use aipcs_mcp.Relational.Additions.{new_names, items_at, unchanged, expected_additions}
use aipcs_mcp.Relational.Metadata.{
  metadata_leb, note_if, classify_attribute_change, classify_global_metadata,
}

-- The last entry of a history of `n + 1` entries, from and to the given versions.
abbrev last_step : ℕ → ℕ → List MigrationHistoryEntry → Bool
last_step from_version to_version [] = false
last_step from_version to_version (h ∷ _) =
    h.from_schema_version == from_version && h.to_schema_version == to_version

-- `_history_is_one_entry_extension`; `target_history[-1]` of an empty list is refused.
unfoldable pub history_is_one_entry_extension : ManifestV2 → ManifestV2 → Bool
unfolding History-discrete
history_is_one_entry_extension current target =
    let kept = length target.migration_history - 1 in
    same History-discrete (take kept target.migration_history) current.migration_history
    && last_step current.schema_version target.schema_version (drop kept target.migration_history)

-- The pairs of attributes at the same place, `zip(source, destination[:len(source)])`.
unfoldable pub classify_attributes :
    Text → List AttributeDefinition → List AttributeDefinition → Contract (List MetadataChange)
unfolding classify_attribute_change
classify_attributes entity [] destination = ok []
classify_attributes entity (s ∷ source) [] = err relational_contract_error
classify_attributes entity (s ∷ source) (d ∷ destination) = do
  first ← classify_attribute_change entity s d
  rest ← classify_attributes entity source destination
  ok (first ++ rest)

unfoldable pub new_field : Text → AttributeDefinition → Contract FieldAddition
unfolding field_of
new_field entity a = do
  require (not (a.required || a.primary_key))
  field ← field_of a
  ok (record { entity = entity; field = field })

-- What one turn of the loop over `sorted(current_entities)` appends to the two lists.
unfoldable pub classify_entity :
    EntityDefinition → EntityDefinition → Contract (List MetadataChange × List FieldAddition)
unfolding classify_attributes new_field OptionText-discrete
classify_entity source destination = do
  description ←
      note_if (not (same OptionText-discrete source.description destination.description))
        entity_description (some source.name) none
  require (leb (length source.attributes) (length destination.attributes))
  attributes ← classify_attributes source.name source.attributes destination.attributes
  fields ← traverse (new_field source.name) (drop (length source.attributes) destination.attributes)
  ok (description ++ attributes, fields)

unfoldable pub classify_entities :
    (Text → Option EntityDefinition)
    → (Text → Option EntityDefinition)
    → List Text
    → Contract (List MetadataChange × List FieldAddition)
unfolding classify_entity
classify_entities source destination [] = ok ([], [])
classify_entities source destination (name ∷ names) = do
  here ← elim (source name) [
    | none ↦ err relational_contract_error
    | some s ↦ elim (destination name) [
      | none ↦ err relational_contract_error
      | some d ↦ classify_entity s d
    ]
  ]
  rest ← classify_entities source destination names
  ok (here.0 ++ rest.0, here.1 ++ rest.1)

abbrev definition_at : List RelationshipDefinition → Text → Option RelationshipDefinition
definition_at = dict_get Text-discrete (λ (r : RelationshipDefinition). r.name)

abbrev index_definition_at : List IndexDefinition → Text → Option IndexDefinition
index_definition_at = dict_get Text-discrete (λ (i : IndexDefinition). i.name)

abbrev definition_names : ManifestV2 → List Text
definition_names m = map (λ (r : RelationshipDefinition). r.name) m.relationships

-- `_classify_relationships`
unfoldable pub classify_relationships :
    ManifestV2 → ManifestV2 → List Text → Contract (List RelationalRelationship)
unfolding relationship_of Text-discrete RelationshipDefinition-discrete
classify_relationships current target new_entity_names = do
  require (subset Text-discrete (definition_names current) (definition_names target))
  require (
      unchanged RelationshipDefinition-discrete (λ (r : RelationshipDefinition). r.name)
        current.relationships (definition_at target.relationships))
  added ←
      items_at (definition_at target.relationships)
        (new_names (definition_names current) (definition_names target))
  traverse
      (λ (r : RelationshipDefinition). do
        require (elem Text-discrete r.from.entity new_entity_names)
        relationship_of r)
      added

-- `_classify_indices`
unfoldable pub classify_indices : ManifestV2 → ManifestV2 → Contract (List RelationalIndex)
unfolding index_of Text-discrete IndexDefinition-discrete
classify_indices current target = do
  require (subset Text-discrete (index_names current) (index_names target))
  require (
      unchanged IndexDefinition-discrete (λ (i : IndexDefinition). i.name) current.indices
        (index_definition_at target.indices))
  added ←
      items_at (index_definition_at target.indices)
        (new_names (index_names current) (index_names target))
  traverse index_of added

abbrev pub is_nothing : RelationalAdditions → List MetadataChange → Bool
is_nothing a changes =
    is_nil a.entities
    && is_nil a.fields
    && is_nil a.relationships
    && is_nil a.indices
    && is_nil changes

-- `RelationalTransition._build`
unfoldable pub build_transition :
    RelationalSpecification
    → RelationalSpecification
    → RelationalAdditions
    → List MetadataChange
    → Contract RelationalTransition
unfolding expected_additions metadata_leb MetadataChange-discrete MetadataChanges-discrete
    RelationalAdditions-discrete
build_transition current target additions metadata_changes = do
  require (
      same MetadataChanges-discrete metadata_changes (sorted metadata_leb metadata_changes)
      && distinct MetadataChange-discrete metadata_changes
      && target.schema_version == current.schema_version + 1)
  expected ← expected_additions current target
  require (same RelationalAdditions-discrete additions expected)
  require (not (is_nothing additions metadata_changes))
  ok (record {
    current = current;
    target = target;
    additions = additions;
    metadata_changes = metadata_changes;
  })

-- `classify_transition`, after the two manifests are detached.
unfoldable pub classify_checked : ManifestV2 → ManifestV2 → Contract RelationalTransition
unfolding history_is_one_entry_extension compile_checked_manifest classify_entities
    classify_global_metadata classify_relationships classify_indices build_transition entity_named
    entity_at metadata_leb Text-discrete
classify_checked source destination = do
  require (destination.schema_version == source.schema_version + 1)
  require (history_is_one_entry_extension source destination)
  current ← compile_checked_manifest source
  target ← compile_checked_manifest destination
  require (subset Text-discrete (entity_names source) (entity_names destination))
  let new_entities = new_names (entity_names source) (entity_names destination)
  changes ←
      classify_entities (entity_named source.entities) (entity_named destination.entities)
        (sorted text_leb (unique Text-discrete (entity_names source)))
  global_changes ← classify_global_metadata source destination
  relationships ← classify_relationships source destination new_entities
  indices ← classify_indices source destination
  entities ← items_at (entity_at target.entities) new_entities
  let metadata = sorted metadata_leb (changes.0 ++ global_changes)
  let additions : RelationalAdditions = record {
    entities = entities;
    fields = changes.1;
    relationships = relationships;
    indices = indices;
  }
  require (not (is_nothing additions metadata))
  build_transition current target additions metadata

unfoldable pub classify_transition :
    (Text → Text) → ManifestV2 → ManifestV2 → Contract RelationalTransition
unfolding detached_manifest classify_checked
classify_transition strip current target = do
  source ← detached_manifest strip current
  destination ← detached_manifest strip target
  classify_checked source destination
