-- ===== src/Relational/Metadata.antt =====
-- The changes of descriptions, guidance and allowed values that a transition may make.
use aipcs_mcp.Prelude.{
  if◌then◌else◌, same, same_bool, is_none, subset, Text, Text-discrete, codes, text_leb, ◌>>=◌,
  ◌>>◌, ok, err, Bool, false, not, ◌&&◌, Option, none, some, List, [], ◌∷◌, ◌++◌,
}
use aipcs_mcp.Manifest.{
  AttributeType-discrete, OptionText-discrete, OptionMode-discrete, AllowedValue-discrete,
  Texts-discrete, Facets-discrete, AttributeDefinition, ManifestV2, AllowedValue, identifier,
}
use aipcs_mcp.Relational.Data.{
  Contract, require, MetadataChange, relational_contract_error, MetadataChangeKind,
  entity_description, attribute_description, retrieval_guidance, query_patterns, discovery_facets,
  retrieval_mode, allowed_values_expansion,
}

-- `MetadataChange.__post_init__`
abbrev names_entity : Option Text → Bool
names_entity none = false
names_entity (some n) = identifier n

unfoldable pub valid_change_shape : MetadataChangeKind → Option Text → Option Text → Bool
unfolding identifier
valid_change_shape retrieval_guidance entity field = is_none entity && is_none field
valid_change_shape query_patterns entity field = is_none entity && is_none field
valid_change_shape discovery_facets entity field = is_none entity && is_none field
valid_change_shape entity_description entity field = names_entity entity && is_none field
valid_change_shape _ entity field = names_entity entity && names_entity field

unfoldable pub metadata_change :
    MetadataChangeKind → Option Text → Option Text → Contract MetadataChange
unfolding valid_change_shape
metadata_change kind entity field =
    if valid_change_shape kind entity field
    then ok (record { kind = kind; entity = entity; field = field })
    else err relational_contract_error

abbrev kind_name : MetadataChangeKind → Text
kind_name entity_description = codes "entity_description"
kind_name attribute_description = codes "attribute_description"
kind_name retrieval_guidance = codes "retrieval_guidance"
kind_name query_patterns = codes "query_patterns"
kind_name discovery_facets = codes "discovery_facets"
kind_name retrieval_mode = codes "retrieval_mode"
kind_name allowed_values_expansion = codes "allowed_values_expansion"

abbrev or_empty : Option Text → Text
or_empty none = []
or_empty (some s) = s

-- The order of `_metadata_sort_key`: tuples from the left.
abbrev before_or : Text → Text → Bool → Bool
before_or a b rest = if same Text-discrete a b then rest else text_leb a b

unfoldable pub metadata_leb : MetadataChange → MetadataChange → Bool
unfolding Text-discrete
metadata_leb a b = before_or (kind_name a.kind) (kind_name b.kind) (
    before_or (or_empty a.entity) (or_empty b.entity)
      (text_leb (or_empty a.field) (or_empty b.field)))

-- `if differs: changes.append(MetadataChange(...))`
abbrev pub note_if :
    Bool → MetadataChangeKind → Option Text → Option Text → Contract (List MetadataChange)
note_if differs kind entity field =
    if differs then (do c ← metadata_change kind entity field; ok (c ∷ [])) else ok []

-- `_classify_allowed_values`; a pair of a type and a value is an `AllowedValue`.
unfoldable pub classify_allowed_values :
    Text
    → Text
    → Option (List AllowedValue)
    → Option (List AllowedValue)
    → Contract (List MetadataChange)
unfolding metadata_change AllowedValue-discrete
classify_allowed_values entity name none none = ok []
classify_allowed_values entity name none (some target) = err relational_contract_error
classify_allowed_values entity name (some source) none = err relational_contract_error
classify_allowed_values entity name (some source) (some target) =
    if subset AllowedValue-discrete source target
    then note_if (not (subset AllowedValue-discrete target source)) allowed_values_expansion
        (some entity) (some name)
    else err relational_contract_error

-- `_classify_attribute_change`
unfoldable pub classify_attribute_change :
    Text → AttributeDefinition → AttributeDefinition → Contract (List MetadataChange)
unfolding classify_allowed_values Text-discrete AttributeType-discrete OptionText-discrete
    OptionMode-discrete
classify_attribute_change entity current target = do
  require (
      same Text-discrete current.name target.name
      && same AttributeType-discrete current.type target.type
      && same_bool current.required target.required
      && same_bool current.primary_key target.primary_key)
  description ←
      note_if (not (same OptionText-discrete current.description target.description))
        attribute_description (some entity) (some current.name)
  mode ←
      note_if (not (same OptionMode-discrete current.retrieval_mode target.retrieval_mode))
        retrieval_mode (some entity) (some current.name)
  values ← classify_allowed_values entity current.name current.allowed_values target.allowed_values
  ok (description ++ mode ++ values)

-- `_classify_global_metadata`
unfoldable pub classify_global_metadata : ManifestV2 → ManifestV2 → Contract (List MetadataChange)
unfolding metadata_change OptionText-discrete Texts-discrete Facets-discrete
classify_global_metadata current target = do
  guidance ←
      note_if (not (same OptionText-discrete current.retrieval_guidance target.retrieval_guidance))
        retrieval_guidance none none
  patterns ←
      note_if (not (same Texts-discrete current.query_patterns target.query_patterns))
        query_patterns none none
  facets ←
      note_if (not (same Facets-discrete current.discovery_facets target.discovery_facets))
        discovery_facets none none
  ok (guidance ++ patterns ++ facets)
