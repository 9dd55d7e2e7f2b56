-- ===== src/Relational/Compile.antt =====
-- `compile_manifest`: the relational specification of a manifest.
use aipcs_mcp.Prelude.{sorted, Text, text_leb, ◌>>=◌, traverse, ok, err, none, some, List}
use aipcs_mcp.Manifest.{
  AttributeDefinition, EntityDefinition, RelationshipDefinition, IndexDefinition, ManifestV2,
  model_validate,
}
use aipcs_mcp.Relational.Data.{
  Contract, checked, RelationalField, RelationalEntity, RelationalRelationship, RelationalIndex,
  RelationalSpecification, relational_contract_error,
}
use aipcs_mcp.Relational.Shape.{
  valid_field, valid_entity_shape, valid_relationship_shape, valid_index_shape, valid_specification,
}

-- `_detached_manifest`
unfoldable pub detached_manifest : (Text → Text) → ManifestV2 → Contract ManifestV2
unfolding model_validate
detached_manifest strip m = elim (model_validate strip m) [
  | none ↦ err relational_contract_error
  | some detached ↦ ok detached
]

-- `_field`
unfoldable pub field_of : AttributeDefinition → Contract RelationalField
unfolding valid_field
field_of a = checked valid_field (record {
  name = a.name;
  logical_type = a.type;
  required = a.required;
  primary_key = a.primary_key;
})

-- `_entity`
unfoldable pub entity_of : EntityDefinition → Contract RelationalEntity
unfolding field_of valid_entity_shape
entity_of e = do
  fields ← traverse field_of e.attributes
  checked valid_entity_shape (record { name = e.name; fields = fields })

unfoldable pub relationship_of : RelationshipDefinition → Contract RelationalRelationship
unfolding valid_relationship_shape
relationship_of r = checked valid_relationship_shape (record {
  name = r.name;
  source_entity = r.from.entity;
  source_field = r.from.field;
  target_entity = r.to.entity;
  target_field = r.to.field;
  on_delete = r.on_delete;
})

unfoldable pub index_of : IndexDefinition → Contract RelationalIndex
unfolding valid_index_shape
index_of i =
    checked valid_index_shape
      (record { name = i.name; entity = i.entity; fields = i.fields; unique = i.unique })

-- `sorted(items, key=lambda item: item.name)`
abbrev pub by_name : {A : Type 0} → (A → Text) → List A → List A
by_name name = sorted (λ a b. text_leb (name a) (name b))

-- `_compile_checked_manifest`
unfoldable pub compile_checked_manifest : ManifestV2 → Contract RelationalSpecification
unfolding entity_of relationship_of index_of valid_specification
compile_checked_manifest m = do
  entities ← traverse entity_of (by_name (λ (e : EntityDefinition). e.name) m.entities)
  relationships ←
      traverse relationship_of (by_name (λ (r : RelationshipDefinition). r.name) m.relationships)
  indices ← traverse index_of (by_name (λ (i : IndexDefinition). i.name) m.indices)
  checked valid_specification (record {
    schema_version = m.schema_version;
    entities = entities;
    relationships = relationships;
    indices = indices;
  })

unfoldable pub compile_manifest : (Text → Text) → ManifestV2 → Contract RelationalSpecification
unfolding detached_manifest compile_checked_manifest
compile_manifest strip m = do
  checked_manifest ← detached_manifest strip m
  compile_checked_manifest checked_manifest
