-- ===== src/Manifest/Whole.antt =====
-- The whole validation of a manifest.
use aipcs_mcp.Prelude.{
  leb, ◌==◌, is_none, length, any, all, elem, distinct, Text, Text-discrete, is_empty, ◌+◌, Bool,
  not, ◌&&◌, List, map,
}
use aipcs_mcp.Manifest.Data.{
  AttributeType-discrete, Pair-discrete, IndexKey-discrete, RelationKey-discrete, EntityDefinition,
  RelationshipDefinition, IndexDefinition, DiscoveryFacet, ManifestV2,
}
use aipcs_mcp.Manifest.Names.{
  max_entities, max_relationships, max_indices, max_query_patterns, max_discovery_facets,
  is_sqlite_reserved,
}
use aipcs_mcp.Manifest.Validate.{
  at_most, valid_entity, valid_relationship, valid_index, valid_facet, valid_history_entry,
}
use aipcs_mcp.Manifest.References.{
  advances_continuously, entity_named, attribute_for, is_indexable, valid_reference,
  has_required_cycle,
}

abbrev pub entity_names : ManifestV2 → List Text
entity_names m = map (λ (e : EntityDefinition). e.name) m.entities

abbrev pub index_names : ManifestV2 → List Text
index_names m = map (λ (i : IndexDefinition). i.name) m.indices

unfoldable pub valid_references : ManifestV2 → Bool
unfolding advances_continuously entity_named attribute_for is_sqlite_reserved valid_reference
    has_required_cycle Text-discrete Pair-discrete IndexKey-discrete AttributeType-discrete
    RelationKey-discrete
valid_references m =
    length m.migration_history + 1 == m.schema_version
    && advances_continuously 1 m.migration_history
    && distinct Text-discrete (entity_names m)
    && not (any is_sqlite_reserved (entity_names m))
    && distinct Text-discrete (map (λ (r : RelationshipDefinition). r.name) m.relationships)
    && distinct Text-discrete (index_names m)
    && not (any is_sqlite_reserved (index_names m))
    && not (any (λ n. elem Text-discrete n (index_names m)) (entity_names m))
    && distinct IndexKey-discrete
        (map (λ (i : IndexDefinition). (i.entity, i.fields, i.unique)) m.indices)
    && distinct RelationKey-discrete (
        map
          (λ (r : RelationshipDefinition).
            (r.from.entity, r.from.field, r.to.entity, r.to.field, r.on_delete))
          m.relationships)
    && distinct Pair-discrete
        (map (λ (r : RelationshipDefinition). (r.from.entity, r.from.field)) m.relationships)
    && distinct Pair-discrete (map (λ (f : DiscoveryFacet). (f.entity, f.field)) m.discovery_facets)
    && all (λ (f : DiscoveryFacet). not (is_none (attribute_for m.entities f.entity f.field)))
        m.discovery_facets
    && all
        (λ (i : IndexDefinition).
          all (λ field. is_indexable (attribute_for m.entities i.entity field)) i.fields)
        m.indices
    && all (valid_reference m.entities) m.relationships
    && not (has_required_cycle m)

-- The declared limits of the fields, then `validate_references`.
unfoldable pub valid_manifest : ManifestV2 → Bool
unfolding valid_entity valid_relationship valid_index valid_facet valid_history_entry
    valid_references
valid_manifest m =
    leb 1 m.schema_version
    && leb m.schema_version 65
    && leb 1 (length m.entities)
    && leb (length m.entities) max_entities
    && all valid_entity m.entities
    && leb (length m.relationships) max_relationships
    && all valid_relationship m.relationships
    && leb (length m.indices) max_indices
    && all valid_index m.indices
    && leb (length m.query_patterns) max_query_patterns
    && all (λ q. not (is_empty q) && leb (length q) 240) m.query_patterns
    && leb (length m.discovery_facets) max_discovery_facets
    && all valid_facet m.discovery_facets
    && at_most 2000 m.retrieval_guidance
    && leb (length m.migration_history) 64
    && all valid_history_entry m.migration_history
    && valid_references m
