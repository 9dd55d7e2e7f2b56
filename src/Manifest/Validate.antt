-- ===== src/Manifest/Validate.antt =====
-- The validators. Where one raises, the whole document is refused: `false`.
use aipcs_mcp.Prelude.{
  ltb, leb, same, ◌==◌, same_bool, is_none, length, any, all, distinct, dict_get, Text,
  Text-discrete, codes, is_empty, ℕ, Bool, true, false, not, ◌&&◌, ◌||◌, Option, none, some, List,
  map,
}
use aipcs_mcp.Manifest.Data.{
  AttributeType-discrete, AllowedValue-discrete, AttributeDefinition, EntityDefinition,
  RelationshipDefinition, IndexDefinition, DiscoveryFacet, MigrationHistoryEntry, AttributeType,
  string, integer, number, boolean, string_list, RetrievalMode, annotation, membership,
  AllowedValue, str, float, non_finite, bool,
}
use aipcs_mcp.Manifest.Names.{
  max_attributes_per_entity, identifier, server_managed_fields, is_signed_64_integer,
  is_exact_number, ManagedField,
}

unfoldable pub allowed_value_matches_type : AllowedValue → AttributeType → Bool
unfolding is_signed_64_integer is_exact_number
allowed_value_matches_type (str s) string = true
allowed_value_matches_type (str s) string_list = true
allowed_value_matches_type value integer = is_signed_64_integer value
allowed_value_matches_type value number = is_exact_number value
allowed_value_matches_type (bool b) boolean = true
allowed_value_matches_type _ _ = false

abbrev is_float : AllowedValue → Bool
is_float (float v) = true
is_float (non_finite v) = true
is_float _ = false

abbrev has_bad_length : AllowedValue → Bool
has_bad_length (str s) = is_empty s || ltb 96 (length s)
has_bad_length _ = false

abbrev has_nul : AllowedValue → Bool
has_nul (str s) = any (λ c. c == 0) s
has_nul _ = false

abbrev is_number : AttributeType → Bool
is_number number = true
is_number _ = false

unfoldable pub valid_allowed_values : AttributeType → Option (List AllowedValue) → Bool
unfolding allowed_value_matches_type AllowedValue-discrete is_exact_number
valid_allowed_values type none = true
valid_allowed_values type (some values) =
    leb 1 (length values)
    && leb (length values) 32
    && distinct AllowedValue-discrete values
    && not (is_number type && any (λ v. is_float v && not (is_exact_number v)) values)
    && all (λ v. allowed_value_matches_type v type) values
    && not (any has_bad_length values)
    && not (any has_nul values)

abbrev pub at_most : ℕ → Option Text → Bool
at_most n none = true
at_most n (some s) = leb (length s) n

unfoldable pub valid_retrieval_mode : AttributeType → Option RetrievalMode → Bool
valid_retrieval_mode string_list (some membership) = true
valid_retrieval_mode type (some membership) = false
valid_retrieval_mode string (some annotation) = true
valid_retrieval_mode type (some annotation) = false
valid_retrieval_mode type none = true

unfoldable pub valid_attribute : AttributeDefinition → Bool
unfolding identifier valid_allowed_values valid_retrieval_mode
valid_attribute a =
    identifier a.name
    && at_most 500 a.description
    && not (a.primary_key && not a.required)
    && valid_allowed_values a.type a.allowed_values
    && valid_retrieval_mode a.type a.retrieval_mode

abbrev matches_managed : ManagedField → Option AttributeDefinition → Bool
matches_managed expected none = false
matches_managed expected (some actual) =
    same AttributeType-discrete actual.type expected.type
    && same_bool actual.required expected.required
    && same_bool actual.primary_key expected.primary_key
    && is_none actual.description
    && is_none actual.allowed_values
    && is_none actual.retrieval_mode

unfoldable pub valid_entity : EntityDefinition → Bool
unfolding identifier valid_attribute server_managed_fields Text-discrete AttributeType-discrete
valid_entity e =
    identifier e.name
    && leb 6 (length e.attributes)
    && leb (length e.attributes) max_attributes_per_entity
    && at_most 1000 e.description
    && all valid_attribute e.attributes
    && distinct Text-discrete (map (λ (a : AttributeDefinition). a.name) e.attributes)
    && all
        (λ (f : ManagedField).
          matches_managed f
            (dict_get Text-discrete (λ (a : AttributeDefinition). a.name) e.attributes f.name))
        server_managed_fields
    && not (
        any
          (λ (a : AttributeDefinition).
            a.primary_key && not (same Text-discrete a.name (codes "id")))
          e.attributes)

unfoldable pub valid_relationship : RelationshipDefinition → Bool
unfolding identifier
valid_relationship r =
    identifier r.name
    && leb (length r.name) 48
    && identifier r.from.entity
    && identifier r.from.field
    && identifier r.to.entity
    && identifier r.to.field

unfoldable pub valid_index : IndexDefinition → Bool
unfolding identifier Text-discrete
valid_index i =
    identifier i.name
    && leb (length i.name) 48
    && identifier i.entity
    && leb 1 (length i.fields)
    && leb (length i.fields) 8
    && all identifier i.fields
    && distinct Text-discrete i.fields

unfoldable pub valid_facet : DiscoveryFacet → Bool
unfolding identifier
valid_facet f = identifier f.entity && identifier f.field

unfoldable pub valid_history_entry : MigrationHistoryEntry → Bool
valid_history_entry h =
    leb 1 h.from_schema_version
    && leb 1 h.to_schema_version
    && leb 1 (length h.operations)
    && leb (length h.operations) 32
    && all (λ o. not (is_empty o) && leb (length o) 240) h.operations
    && ltb h.from_schema_version h.to_schema_version
