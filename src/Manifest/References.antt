-- ===== src/Manifest/References.antt =====
-- `ManifestV2.validate_references`: what the parts of a manifest say of one another.
use aipcs_mcp.Prelude.{
  same, ◌==◌, keep, find, elem, unique, sorted, dict_get, Text, Text-discrete, codes, text_leb, ℕ,
  ◌+◌, Bool, true, false, not, ◌&&◌, ◌||◌, Option, none, some, List, [], ◌∷◌, ◌++◌, map,
}
use aipcs_mcp.Cycle.{has_directed_cycle}
use aipcs_mcp.Manifest.Data.{
  AttributeType-discrete, RelationshipEndpoint-discrete, AttributeDefinition, EntityDefinition,
  RelationshipDefinition, MigrationHistoryEntry, ManifestV2, uuid, string_list,
}
use aipcs_mcp.Manifest.Names.{server_managed_fields, ManagedField}

-- `for expected_from, entry in enumerate(history, start)`
unfoldable pub advances_continuously : ℕ → List MigrationHistoryEntry → Bool
advances_continuously start [] = true
advances_continuously start (h ∷ rest) =
    h.from_schema_version == start
    && h.to_schema_version == start + 1
    && advances_continuously (start + 1) rest

unfoldable pub entity_named : List EntityDefinition → Text → Option EntityDefinition
unfolding Text-discrete
entity_named = dict_get Text-discrete (λ (e : EntityDefinition). e.name)

unfoldable pub attribute_for : List EntityDefinition → Text → Text → Option AttributeDefinition
unfolding entity_named Text-discrete
attribute_for entities entity_name field_name = elim (entity_named entities entity_name) [
  | none ↦ none
  | some e ↦ find (λ (a : AttributeDefinition). same Text-discrete a.name field_name) e.attributes
]

abbrev pub is_indexable : Option AttributeDefinition → Bool
is_indexable none = false
is_indexable (some a) = not (same AttributeType-discrete a.type string_list)

-- One turn of the loop over the relationships, and the edge that it adds.
unfoldable pub valid_source : Text → Option AttributeDefinition → Bool
unfolding server_managed_fields Text-discrete AttributeType-discrete
valid_source field none = false
valid_source field (some source) =
    not (
      source.primary_key
      || elem Text-discrete field (map (λ (f : ManagedField). f.name) server_managed_fields))
    && same AttributeType-discrete source.type uuid

unfoldable pub valid_target : Text → Option AttributeDefinition → Bool
unfolding Text-discrete AttributeType-discrete
valid_target field none = false
valid_target field (some target) =
    same Text-discrete field (codes "id")
    && same AttributeType-discrete target.type uuid
    && target.primary_key

unfoldable pub valid_reference : List EntityDefinition → RelationshipDefinition → Bool
unfolding valid_source valid_target attribute_for RelationshipEndpoint-discrete
valid_reference entities r =
    valid_source r.from.field (attribute_for entities r.from.entity r.from.field)
    && valid_target r.to.field (attribute_for entities r.to.entity r.to.field)
    && not (same RelationshipEndpoint-discrete r.from r.to)

abbrev pub is_required : Option AttributeDefinition → Bool
is_required none = false
is_required (some a) = a.required

-- The edges of the relationships whose source field is required.
abbrev pub required_relationships : ManifestV2 → List RelationshipDefinition
required_relationships m =
    keep
      (λ (r : RelationshipDefinition).
        is_required (attribute_for m.entities r.from.entity r.from.field))
      m.relationships

-- `sorted(adjacency.get(node, ()))`
unfoldable pub required_targets : ManifestV2 → Text → List Text
unfolding attribute_for Text-discrete
required_targets m node = sorted text_leb (
    unique Text-discrete (
      map (λ (r : RelationshipDefinition). r.to.entity)
        (keep (λ (r : RelationshipDefinition). same Text-discrete r.from.entity node)
          (required_relationships m))))

-- `sorted(adjacency)`: the nodes with an outgoing edge.
unfoldable pub required_sources : ManifestV2 → List Text
unfolding attribute_for Text-discrete
required_sources m = sorted text_leb (
    unique Text-discrete
      (map (λ (r : RelationshipDefinition). r.from.entity) (required_relationships m)))

-- Every node that the search meets.
unfoldable pub relationship_ends : ManifestV2 → List Text
relationship_ends m =
    map (λ (r : RelationshipDefinition). r.from.entity) m.relationships
    ++ map (λ (r : RelationshipDefinition). r.to.entity) m.relationships

unfoldable pub has_required_cycle : ManifestV2 → Bool
unfolding has_directed_cycle required_targets required_sources relationship_ends Text-discrete
has_required_cycle m =
    has_directed_cycle Text-discrete (required_targets m) (relationship_ends m) (required_sources m)
