-- ===== src/Manifest/Acyclic.antt =====
-- The relationships of a valid manifest whose source field is required form no cycle.
use aipcs_mcp.Prelude.{
  same, keep, elem, unique, Text, Text-discrete, text_leb, elem-sorted, elem-unique, elem-of_unique,
  elem-of_sorted, elem-append, elem-map-keep, edge_source, ◌≡◌, true, false, map, arith,
}
use aipcs_mcp.Cycle.{Walk, IsSearchable, has_directed_cycle-iff-Walk}
use aipcs_mcp.Manifest.Data.{RelationshipDefinition, ManifestV2}
use aipcs_mcp.Manifest.References.{
  attribute_for, is_required, required_relationships, required_targets, required_sources,
  relationship_ends, has_required_cycle,
}
use aipcs_mcp.Manifest.Whole.{valid_references, valid_manifest}

abbrev source_of : RelationshipDefinition → Text
source_of r = r.from.entity

abbrev target_of_relationship : RelationshipDefinition → Text
target_of_relationship r = r.to.entity

-- A source of an edge, and a target of one, in terms of the relationships.
module _ (m : ManifestV2) where
  target-relationship :
      (a b : Text)
      → elem Text-discrete b (required_targets m a) ≡ true
      → elem Text-discrete b (
          map target_of_relationship
            (keep (λ r. same Text-discrete (source_of r) a) (required_relationships m)))
        ≡ true
  unfolding required_targets
  target-relationship a b h =
      elem-of_unique Text-discrete b _ (elem-of_sorted Text-discrete text_leb b _ h)

  edge-required_sources :
      (a b : Text)
      → elem Text-discrete b (required_targets m a) ≡ true
      → elem Text-discrete a (required_sources m) ≡ true
  unfolding required_sources
  edge-required_sources a b h = elem-sorted Text-discrete text_leb a _ (
      elem-unique Text-discrete a _ (
        edge_source Text-discrete source_of target_of_relationship a b (required_relationships m)
          (target-relationship a b h)))

  source-relationship_ends :
      (a : Text)
      → elem Text-discrete a (required_sources m) ≡ true
      → elem Text-discrete a (relationship_ends m) ≡ true
  unfolding required_sources relationship_ends attribute_for
  source-relationship_ends a h =
      let found = map source_of (required_relationships m) in
      let among : elem Text-discrete a found ≡ true =
        elem-of_unique Text-discrete a found
          (elem-of_sorted Text-discrete text_leb a (unique Text-discrete found) h) in
      elem-append Text-discrete a (map source_of m.relationships) _ (
        ground (
          arith,
          elem-map-keep Text-discrete source_of
              (λ r. is_required (attribute_for m.entities r.from.entity r.from.field)) a
              m.relationships among,
        ))

  target-relationship_ends :
      (a b : Text)
      → elem Text-discrete b (required_targets m a) ≡ true
      → elem Text-discrete b (relationship_ends m) ≡ true
  unfolding relationship_ends
  target-relationship_ends a b h = elem-append Text-discrete b (map source_of m.relationships) _ (
      ground (
        arith,
        elem-map-keep Text-discrete target_of_relationship
            (λ r. is_required (attribute_for m.entities r.from.entity r.from.field)) b
            m.relationships
            (elem-map-keep Text-discrete target_of_relationship
              (λ r. same Text-discrete (source_of r) a) b (required_relationships m)
              (target-relationship a b h)),
      ))

  manifest-IsSearchable :
      IsSearchable Text-discrete (required_targets m) (relationship_ends m) (required_sources m)
  manifest-IsSearchable = record {
    starts = source-relationship_ends;
    within = λ a b i e. target-relationship_ends a b e;
    sources = λ a b i e. edge-required_sources a b e;
  }

  no_required_cycle : valid_manifest m ≡ true → has_required_cycle m ≡ false
  unfolding valid_manifest valid_references
  no_required_cycle v = ground arith

  -- In a manifest that passes every check, no walk along relationships with a required source field
  -- leads from an entity that a relationship names back to it.
  pub valid_manifest-acyclic :
      valid_manifest m ≡ true
      → (a : Text) → elem Text-discrete a (relationship_ends m) ≡ true
      → ¬ Walk Text-discrete (required_targets m) a a
  unfolding has_required_cycle
  valid_manifest-acyclic v =
      (has_directed_cycle-iff-Walk Text-discrete (required_targets m) (relationship_ends m)
          (required_sources m) manifest-IsSearchable).1.0
        (no_required_cycle v)
