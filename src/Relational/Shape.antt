-- ===== src/Relational/Shape.antt =====
-- What the dataclasses of relational.py accept.
use aipcs_mcp.Prelude.{
  leb, same, same_bool, is_none, length, any, all, keep, find, elem, distinct, unique, sorted,
  dict_get, Text, Text-discrete, codes, text_leb, starts_with, Bool, true, false, not, ◌&&◌, Option,
  none, some, List, [], ◌∷◌, map,
}
use aipcs_mcp.Cycle.{has_directed_cycle}
use aipcs_mcp.Manifest.{
  AttributeType-discrete, Texts-discrete, Pair-discrete, IndexKey-discrete, uuid, string_list,
  identifier, server_managed_fields, ManagedField,
}
use aipcs_mcp.Relational.Data.{
  RelationalField, RelationalEntity, RelationalRelationship, RelationalIndex,
  RelationalSpecification,
}

unfoldable pub valid_field : RelationalField → Bool
unfolding identifier
valid_field f = identifier f.name && not (f.primary_key && not f.required)

abbrev pub field_names : List RelationalField → List Text
field_names = map (λ (f : RelationalField). f.name)

abbrev declares : ManagedField → Option RelationalField → Bool
declares expected none = false
declares expected (some actual) =
    same AttributeType-discrete actual.logical_type expected.type
    && same_bool actual.required expected.required
    && same_bool actual.primary_key expected.primary_key

unfoldable pub valid_entity_shape : RelationalEntity → Bool
unfolding identifier server_managed_fields Text-discrete AttributeType-discrete
valid_entity_shape e =
    identifier e.name
    && leb 1 (length e.fields)
    && leb (length e.fields) 64
    && distinct Text-discrete (field_names e.fields)
    && all
        (λ (m : ManagedField).
          declares m (dict_get Text-discrete (λ (f : RelationalField). f.name) e.fields m.name))
        server_managed_fields
    && not (
        any (λ (f : RelationalField). f.primary_key && not (same Text-discrete f.name (codes "id")))
          e.fields)

unfoldable pub valid_relationship_shape : RelationalRelationship → Bool
unfolding identifier
valid_relationship_shape r =
    identifier r.name
    && identifier r.source_entity
    && identifier r.source_field
    && identifier r.target_entity
    && identifier r.target_field
    && leb (length r.name) 48

unfoldable pub valid_index_shape : RelationalIndex → Bool
unfolding identifier Text-discrete
valid_index_shape i =
    identifier i.name
    && leb (length i.name) 48
    && identifier i.entity
    && leb 1 (length i.fields)
    && leb (length i.fields) 8
    && all identifier i.fields
    && distinct Text-discrete i.fields

unfoldable pub entity_field : RelationalEntity → Text → Option RelationalField
unfolding Text-discrete
entity_field e name = find (λ (f : RelationalField). same Text-discrete f.name name) e.fields

unfoldable pub entity_at : List RelationalEntity → Text → Option RelationalEntity
unfolding Text-discrete
entity_at = dict_get Text-discrete (λ (e : RelationalEntity). e.name)

unfoldable pub field_at : List RelationalEntity → Text → Text → Option RelationalField
unfolding entity_at entity_field
field_at entities entity name = elim (entity_at entities entity) [
  | none ↦ none
  | some e ↦ entity_field e name
]

abbrev is_reference : Option RelationalField → Bool
is_reference none = false
is_reference (some f) = same AttributeType-discrete f.logical_type uuid && not f.primary_key

abbrev is_uuid_key : Option RelationalField → Bool
is_uuid_key none = false
is_uuid_key (some f) = same AttributeType-discrete f.logical_type uuid && f.primary_key

-- One turn of that loop, but for the set `endpoints`.
unfoldable pub valid_ends : List RelationalEntity → RelationalRelationship → Bool
unfolding field_at Text-discrete AttributeType-discrete
valid_ends entities r =
    not (is_none (entity_at entities r.source_entity))
    && not (is_none (entity_at entities r.target_entity))
    && is_reference (field_at entities r.source_entity r.source_field)
    && same Text-discrete r.target_field (codes "id")
    && is_uuid_key (field_at entities r.target_entity r.target_field)

-- The loop over the relationships, with the set `endpoints`.
unfoldable pub valid_endpoints :
    List RelationalEntity → List (Text × Text) → List RelationalRelationship → Bool
unfolding valid_ends Pair-discrete
valid_endpoints entities endpoints [] = true
valid_endpoints entities endpoints (r ∷ rs) =
    valid_ends entities r
    && not (elem Pair-discrete (r.source_entity, r.source_field) endpoints)
    && valid_endpoints entities ((r.source_entity, r.source_field) ∷ endpoints) rs

abbrev is_required_field : Option RelationalField → Bool
is_required_field none = false
is_required_field (some f) = f.required

-- `required_graph[node]`
unfoldable pub required_graph : RelationalSpecification → Text → List Text
unfolding field_at Text-discrete
required_graph s node = unique Text-discrete (
    map (λ (r : RelationalRelationship). r.target_entity)
      (keep
        (λ (r : RelationalRelationship).
          same Text-discrete r.source_entity node
          && is_required_field (field_at s.entities r.source_entity r.source_field))
        s.relationships))

abbrev pub names_of : RelationalSpecification → List Text
names_of s = map (λ (e : RelationalEntity). e.name) s.entities

unfoldable pub has_required_graph_cycle : RelationalSpecification → Bool
unfolding has_directed_cycle required_graph Text-discrete
has_required_graph_cycle s =
    has_directed_cycle Text-discrete (required_graph s) (names_of s) (names_of s)

abbrev is_indexable_field : Option RelationalField → Bool
is_indexable_field none = false
is_indexable_field (some f) = not (same AttributeType-discrete f.logical_type string_list)

-- The loop over the indices, with the set `index_definitions`.
unfoldable pub valid_index_definitions :
    List RelationalEntity → List (Text × List Text × Bool) → List RelationalIndex → Bool
unfolding entity_at field_at AttributeType-discrete IndexKey-discrete
valid_index_definitions entities seen [] = true
valid_index_definitions entities seen (i ∷ is) =
    not (is_none (entity_at entities i.entity))
    && all (λ name. is_indexable_field (field_at entities i.entity name)) i.fields
    && not (elem IndexKey-discrete (i.entity, i.fields, i.unique) seen)
    && valid_index_definitions entities ((i.entity, i.fields, i.unique) ∷ seen) is

abbrev pub index_names_of : RelationalSpecification → List Text
index_names_of s = map (λ (i : RelationalIndex). i.name) s.indices

abbrev pub relationship_names_of : RelationalSpecification → List Text
relationship_names_of s = map (λ (r : RelationalRelationship). r.name) s.relationships

abbrev is_sqlite_name : Text → Bool
is_sqlite_name n = starts_with n (codes "sqlite_")

-- `_validate_specification_shape`
unfoldable pub valid_specification_shape : RelationalSpecification → Bool
unfolding valid_endpoints has_required_graph_cycle valid_index_definitions Text-discrete
valid_specification_shape s =
    distinct Text-discrete (names_of s)
    && not (any is_sqlite_name (names_of s))
    && distinct Text-discrete (relationship_names_of s)
    && distinct Text-discrete (index_names_of s)
    && not (any is_sqlite_name (index_names_of s))
    && not (any (λ n. elem Text-discrete n (index_names_of s)) (names_of s))
    && valid_endpoints s.entities [] s.relationships
    && not (has_required_graph_cycle s)
    && valid_index_definitions s.entities [] s.indices

abbrev is_in_order : List Text → Bool
is_in_order names = same Texts-discrete names (sorted text_leb names)

-- `RelationalSpecification.__post_init__`
unfoldable pub valid_specification : RelationalSpecification → Bool
unfolding valid_specification_shape Texts-discrete
valid_specification s =
    leb 1 s.schema_version
    && leb s.schema_version 65
    && leb 1 (length s.entities)
    && leb (length s.entities) 32
    && leb (length s.relationships) 128
    && leb (length s.indices) 128
    && is_in_order (names_of s)
    && is_in_order (relationship_names_of s)
    && is_in_order (index_names_of s)
    && valid_specification_shape s
