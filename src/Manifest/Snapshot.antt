-- ===== src/Manifest/Snapshot.antt =====
-- The detached copy of a manifest that callers take, and Python's `==` on manifests.
use mathlib.Core.Option
use aipcs_mcp.Prelude.{if◌then◌else◌, same, Text, scale, pos, ℕ, ◌^◌, Bool, Option, none, some, map}
use aipcs_mcp.Manifest.Data.{
  ManifestV2-discrete, AttributeDefinition, EntityDefinition, RelationshipEndpoint,
  RelationshipDefinition, IndexDefinition, DiscoveryFacet, MigrationHistoryEntry, ManifestV2,
  AllowedValue, str, int, float, bool,
}
use aipcs_mcp.Manifest.Whole.{valid_manifest}

-- pydantic removes the white space at the ends of each text that it reads, by `strip`.
module _ (strip : Text → Text) where
  abbrev pub strip_value : AllowedValue → AllowedValue
  strip_value (str s) = str (strip s)
  strip_value v = v

  abbrev pub strip_attribute : AttributeDefinition → AttributeDefinition
  strip_attribute a = record a {
    name = strip a.name;
    description = Option.map strip a.description;
    allowed_values = Option.map (map strip_value) a.allowed_values;
  }

  abbrev pub strip_entity : EntityDefinition → EntityDefinition
  strip_entity e = record e {
    name = strip e.name;
    attributes = map strip_attribute e.attributes;
    description = Option.map strip e.description;
  }

  abbrev pub strip_endpoint : RelationshipEndpoint → RelationshipEndpoint
  strip_endpoint p = record { entity = strip p.entity; field = strip p.field }

  abbrev pub strip_relationship : RelationshipDefinition → RelationshipDefinition
  strip_relationship r = record r {
    name = strip r.name;
    from = strip_endpoint r.from;
    to = strip_endpoint r.to;
  }

  abbrev pub strip_index : IndexDefinition → IndexDefinition
  strip_index i = record i {
    name = strip i.name;
    entity = strip i.entity;
    fields = map strip i.fields;
  }

  abbrev pub strip_facet : DiscoveryFacet → DiscoveryFacet
  strip_facet f = record { entity = strip f.entity; field = strip f.field }

  abbrev pub strip_entry : MigrationHistoryEntry → MigrationHistoryEntry
  strip_entry h = record h { operations = map strip h.operations }

  unfoldable pub strip_manifest : ManifestV2 → ManifestV2
  strip_manifest m = record m {
    entities = map strip_entity m.entities;
    relationships = map strip_relationship m.relationships;
    indices = map strip_index m.indices;
    query_patterns = map strip m.query_patterns;
    discovery_facets = map strip_facet m.discovery_facets;
    retrieval_guidance = Option.map strip m.retrieval_guidance;
    migration_history = map strip_entry m.migration_history;
  }

  -- `ManifestV2.model_validate(manifest.model_dump(...))`; `none` is a raised ValidationError.
  unfoldable pub model_validate : ManifestV2 → Option ManifestV2
  unfolding strip_manifest valid_manifest
  model_validate m = if valid_manifest (strip_manifest m) then some (strip_manifest m) else none

-- 1 as a float: 2 ^ 1074 units.
unfoldable pub float_unit : ℕ
float_unit = 2 ^ 1074

-- `1 == 1.0 == True` in Python.
abbrev numeric : AllowedValue → AllowedValue
numeric (int v) = float (scale float_unit v)
numeric (bool b) = float (pos (if b then float_unit else 0))
numeric v = v

abbrev numeric_attribute : AttributeDefinition → AttributeDefinition
numeric_attribute a = record a { allowed_values = Option.map (map numeric) a.allowed_values }

abbrev numeric_entity : EntityDefinition → EntityDefinition
numeric_entity e = record e { attributes = map numeric_attribute e.attributes }

-- A manifest with its numbers in one form: two manifests are `==` if these are the same.
unfoldable pub numeric_manifest : ManifestV2 → ManifestV2
unfolding float_unit
numeric_manifest m = record m { entities = map numeric_entity m.entities }

unfoldable pub manifest_eq : ManifestV2 → ManifestV2 → Bool
unfolding numeric_manifest ManifestV2-discrete
manifest_eq m n = same ManifestV2-discrete (numeric_manifest m) (numeric_manifest n)
