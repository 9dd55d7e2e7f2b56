-- ===== src/Manifest/Detached.antt =====
-- A detached copy of a manifest is read again without a change.
use mathlib.Core.Option
use aipcs_mcp.Prelude.{
  if-some, if-true, Text, ◌≡◌, refl, sym, ap, ◌∙◌, subst, true, Option, none, some, List, [], ◌∷◌,
  map,
}
use aipcs_mcp.Manifest.Data.{
  AttributeDefinition, EntityDefinition, RelationshipEndpoint, RelationshipDefinition,
  IndexDefinition, DiscoveryFacet, MigrationHistoryEntry, ManifestV2, AllowedValue, str, int, float,
  non_finite, bool,
}
use aipcs_mcp.Manifest.Whole.{valid_manifest}
use aipcs_mcp.Manifest.Snapshot.{
  strip_value, strip_attribute, strip_entity, strip_endpoint, strip_relationship, strip_index,
  strip_facet, strip_entry, strip_manifest, model_validate,
}

map_idem {ℓ} :
    {A : Type ℓ} (f : A → A)
    → ((a : A) → f (f a) ≡ f a)
    → (xs : List A) → map f (map f xs) ≡ map f xs
map_idem f h [] = refl
map_idem f h (x ∷ xs) = cc (h x, map_idem f h xs)

option_idem {ℓ} :
    {A : Type ℓ} (f : A → A)
    → ((a : A) → f (f a) ≡ f a)
    → (o : Option A) → Option.map f (Option.map f o) ≡ Option.map f o
option_idem f h none = refl
option_idem f h (some a) = ap some (h a)

module _ (strip : Text → Text) (idem : (s : Text) → strip (strip s) ≡ strip s) where
  value_idem : (v : AllowedValue) → strip_value strip (strip_value strip v) ≡ strip_value strip v
  value_idem (str s) = ap str (idem s)
  value_idem (int n) = refl
  value_idem (float n) = refl
  value_idem (non_finite n) = refl
  value_idem (bool b) = refl

  attribute_idem :
      (a : AttributeDefinition)
      → strip_attribute strip (strip_attribute strip a) ≡ strip_attribute strip a
  attribute_idem a = cc (
    idem a.name,
    option_idem strip idem a.description,
    option_idem (map (strip_value strip)) (map_idem (strip_value strip) value_idem)
        a.allowed_values,
  )

  entity_idem :
      (e : EntityDefinition) → strip_entity strip (strip_entity strip e) ≡ strip_entity strip e
  entity_idem e = cc (
    idem e.name,
    map_idem (strip_attribute strip) attribute_idem e.attributes,
    option_idem strip idem e.description,
  )

  endpoint_idem :
      (e : RelationshipEndpoint)
      → strip_endpoint strip (strip_endpoint strip e) ≡ strip_endpoint strip e
  endpoint_idem e = cc (idem e.entity, idem e.field)

  relationship_idem :
      (r : RelationshipDefinition)
      → strip_relationship strip (strip_relationship strip r) ≡ strip_relationship strip r
  relationship_idem r = cc (idem r.name, endpoint_idem r.from, endpoint_idem r.to)

  index_idem : (i : IndexDefinition) → strip_index strip (strip_index strip i) ≡ strip_index strip i
  index_idem i = cc (idem i.name, idem i.entity, map_idem strip idem i.fields)

  facet_idem : (f : DiscoveryFacet) → strip_facet strip (strip_facet strip f) ≡ strip_facet strip f
  facet_idem f = cc (idem f.entity, idem f.field)

  entry_idem :
      (h : MigrationHistoryEntry) → strip_entry strip (strip_entry strip h) ≡ strip_entry strip h
  entry_idem h = cc (map_idem strip idem h.operations)

  strip_manifest_idem :
      (m : ManifestV2) → strip_manifest strip (strip_manifest strip m) ≡ strip_manifest strip m
  unfolding strip_manifest
  strip_manifest_idem m = cc (
    map_idem (strip_entity strip) entity_idem m.entities,
    map_idem (strip_relationship strip) relationship_idem m.relationships,
    map_idem (strip_index strip) index_idem m.indices,
    map_idem strip idem m.query_patterns,
    map_idem (strip_facet strip) facet_idem m.discovery_facets,
    option_idem strip idem m.retrieval_guidance,
    map_idem (strip_entry strip) entry_idem m.migration_history,
  )

  -- If the removal of white space is idempotent, a manifest that `model_validate` returned is
  -- returned unchanged when it is validated again, and it meets every check.
  pub model_validate_idem :
      (m : ManifestV2) {n : ManifestV2}
      → model_validate strip m ≡ some n
      → (model_validate strip n ≡ some n) × (valid_manifest n ≡ true)
  unfolding model_validate
  model_validate_idem m {n} h =
      let (v, e) = if-some (valid_manifest (strip_manifest strip m)) (strip_manifest strip m) h in
      let s : strip_manifest strip n ≡ n = rw (← e) (strip_manifest_idem m) in
      let w : valid_manifest n ≡ true = subst (λ x. valid_manifest x ≡ true) e v in
      (
        if-true (valid_manifest (strip_manifest strip n)) _ none
              (subst (λ x. valid_manifest x ≡ true) (sym s) w)
            ∙ ap some s,
        w,
      )
