-- ===== src/Relational/Acyclic.antt =====
-- The relationships whose source field is required form no cycle in a specification that
-- relational.py accepts.
use aipcs_mcp.Prelude.{
  same, eq_of_same, Option-cases, is_none, elem, Text, Text-discrete, or-true, elem-of_unique,
  elem-dict_get, elem-map-keep, >>=-eq-ok, traverse, ok, ◌≡◌, sym, ap, subst, inl, inr, Bool, true,
  false, List, [], ◌∷◌, map, arith,
}
use aipcs_mcp.Cycle.{Walk, IsSearchable, has_directed_cycle-iff-Walk}
use aipcs_mcp.Manifest.{EntityDefinition, RelationshipDefinition, IndexDefinition, ManifestV2}
use aipcs_mcp.Relational.Compile.{
  detached_manifest, entity_of, relationship_of, index_of, by_name, compile_checked_manifest,
  compile_manifest,
}
use aipcs_mcp.Relational.Data.{
  checked, RelationalEntity, RelationalRelationship, RelationalSpecification,
}
use aipcs_mcp.Relational.Shape.{
  entity_at, valid_ends, valid_endpoints, required_graph, names_of, has_required_graph_cycle,
  valid_specification_shape, valid_specification,
}

entity_at-names :
    (es : List RelationalEntity) (b : Text)
    → is_none (entity_at es b) ≡ false
    → elem Text-discrete b (map (λ (e : RelationalEntity). e.name) es) ≡ true
unfolding entity_at
entity_at-names es b h = elim (Option-cases (entity_at es b)) [
  | inl e ↦ ground arith
  | inr (a, e) ↦ elem-dict_get Text-discrete (λ (e : RelationalEntity). e.name) es b e
]

ends-target :
    (es : List RelationalEntity) (r : RelationalRelationship)
    → valid_ends es r ≡ true
    → is_none (entity_at es r.target_entity) ≡ false
unfolding valid_ends
ends-target es r v = ground arith

endpoints_step :
    (es : List RelationalEntity) (seen : List (Text × Text)) (r : RelationalRelationship)
    (rs : List RelationalRelationship)
    → valid_endpoints es seen (r ∷ rs) ≡ true
    → (valid_ends es r ≡ true)
      × (valid_endpoints es ((r.source_entity, r.source_field) ∷ seen) rs ≡ true)
unfolding valid_endpoints
endpoints_step es seen r rs v = ground arith

-- Every target of an accepted relationship is a declared entity.
target_declared :
    (es : List RelationalEntity) (seen : List (Text × Text)) (rs : List RelationalRelationship)
    (b : Text)
    → valid_endpoints es seen rs ≡ true
    → elem Text-discrete b (map (λ (r : RelationalRelationship). r.target_entity) rs) ≡ true
    → elem Text-discrete b (map (λ (e : RelationalEntity). e.name) es) ≡ true
target_declared es seen [] b v h = cc
target_declared es seen (r ∷ rs) b v h =
    let (ends, rest) = endpoints_step es seen r rs v in
    elim (or-true (same Text-discrete b r.target_entity) _ h) [
      | inl s ↦ entity_at-names es b (
          subst (λ n. is_none (entity_at es n) ≡ false)
            (sym (eq_of_same Text-discrete b r.target_entity s)) (ends-target es r ends))
      | inr i ↦ target_declared es _ rs b rest i
    ]

unfoldable pub HasRequiredCycle : RelationalSpecification → Type 0
unfolding required_graph Text-discrete
HasRequiredCycle s =
    (a : Text) × (elem Text-discrete a (names_of s) ≡ true)
    × Walk Text-discrete (required_graph s) a a

specification-IsSearchable :
    (s : RelationalSpecification)
    → valid_endpoints s.entities [] s.relationships ≡ true
    → IsSearchable Text-discrete (required_graph s) (names_of s) (names_of s)
unfolding required_graph
specification-IsSearchable s v = record {
  starts = λ a i. i;
  within = λ a b i e. target_declared s.entities [] s.relationships b v (
      elem-map-keep Text-discrete (λ (r : RelationalRelationship). r.target_entity) _ b
        s.relationships (elem-of_unique Text-discrete b _ e));
  sources = λ a b i e. i;
}

shape_checks :
    (s : RelationalSpecification)
    → valid_specification_shape s ≡ true
    → (valid_endpoints s.entities [] s.relationships ≡ true) × (has_required_graph_cycle s ≡ false)
unfolding valid_specification_shape
shape_checks s v = ground arith

specification-acyclic :
    (s : RelationalSpecification) → valid_specification_shape s ≡ true → ¬ HasRequiredCycle s
unfolding has_required_graph_cycle HasRequiredCycle
specification-acyclic s v (a, i, w) =
    let (ends, free) = shape_checks s v in
    (has_directed_cycle-iff-Walk Text-discrete (required_graph s) (names_of s) (names_of s)
        (specification-IsSearchable s ends)).1.0
      free a i w

checked-ok :
    {A : Type 0} (valid : A → Bool) (a : A) {b : A}
    → checked valid a ≡ ok b
    → (valid b ≡ true) × (a ≡ b)
checked-ok valid a h = ground arith

compile_checked-valid :
    (m : ManifestV2) {s : RelationalSpecification}
    → compile_checked_manifest m ≡ ok s
    → (valid_specification s ≡ true) × (m.schema_version ≡ s.schema_version)
unfolding compile_checked_manifest
compile_checked-valid m h =
    let (_, _, h1) =
      >>=-eq-ok (traverse entity_of (by_name (λ (e : EntityDefinition). e.name) m.entities)) _ h in
    let (_, _, h2) =
      >>=-eq-ok
        (traverse relationship_of
          (by_name (λ (r : RelationshipDefinition). r.name) m.relationships))
        _ h1 in
    let (_, _, h3) =
      >>=-eq-ok (traverse index_of (by_name (λ (i : IndexDefinition). i.name) m.indices)) _ h2 in
    let (v, e) = checked-ok valid_specification _ h3 in
    (v, ap (λ (s : RelationalSpecification). s.schema_version) e)

valid-shape :
    (s : RelationalSpecification)
    → valid_specification s ≡ true
    → valid_specification_shape s ≡ true
unfolding valid_specification
valid-shape s v = ground arith

-- A specification that `compile_manifest` returns passes every check of its constructor, has the
-- version of the detached manifest, and has no entity from which required relationships lead back
-- to it.
pub compile_manifest-acyclic :
    (strip : Text → Text) (m : ManifestV2) {s : RelationalSpecification}
    → compile_manifest strip m ≡ ok s
    → (valid_specification s ≡ true)
      × ((detached : ManifestV2) × (detached_manifest strip m ≡ ok detached)
          × (detached.schema_version ≡ s.schema_version))
      × ¬ HasRequiredCycle s
unfolding compile_manifest
compile_manifest-acyclic strip m {s} h =
    let (detached, e, h1) = >>=-eq-ok (detached_manifest strip m) _ h in
    let (v, version) = compile_checked-valid detached h1 in
    (v, (detached, e, version), specification-acyclic s (valid-shape s v))
