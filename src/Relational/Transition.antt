-- ===== src/Relational/Transition.antt =====
-- The transitions that `classify_transition` returns.
use aipcs_mcp.Prelude.{
  same, eq_of_same, ◌==◌, length, keep, elem, distinct, subset, unique, sorted, Text, Text-discrete,
  text_leb, elem-sorted, elem-unique, elem-dict_get, >>=-eq-ok, ok-injective, ok, ◌+◌, ◌≡◌, refl,
  sym, ap, ◌∙◌, subst, Bool, true, false, not, ◌&&◌, some, List, ◌++◌, arith,
}
use aipcs_mcp.Manifest.{ManifestV2, entity_named, entity_names}
use aipcs_mcp.Relational.Compile.{detached_manifest, compile_checked_manifest, compile_manifest}
use aipcs_mcp.Relational.Data.{
  RelationalRelationship-discrete, RelationalIndex-discrete, RelationalAdditions-discrete,
  MetadataChange-discrete, MetadataChanges-discrete, RelationalEntity, RelationalRelationship,
  RelationalIndex, RelationalSpecification, FieldAddition, RelationalAdditions, MetadataChange,
  RelationalTransition,
}
use aipcs_mcp.Relational.Shape.{entity_at, names_of, index_names_of, relationship_names_of}
use aipcs_mcp.Relational.Additions.{
  new_names, items_at, all_added_fields, relationship_at, index_at, unchanged, expected_additions,
}
use aipcs_mcp.Relational.Metadata.{metadata_leb, classify_global_metadata}
use aipcs_mcp.Relational.Classify.{
  history_is_one_entry_extension, classify_entities, classify_relationships, classify_indices,
  is_nothing, build_transition, classify_checked, classify_transition,
}
use aipcs_mcp.Relational.Extension.{
  require-rest, added_fields-ok, all_added_fields-ok, unchanged-ok, IsExtension,
}

abbrev sorted_names : RelationalSpecification → List Text
sorted_names s = sorted text_leb (unique Text-discrete (names_of s))

abbrev kept_relationships : RelationalSpecification → RelationalSpecification → Bool
kept_relationships current target =
    unchanged RelationalRelationship-discrete (λ (r : RelationalRelationship). r.name)
      current.relationships (relationship_at target.relationships)

abbrev kept_indices : RelationalSpecification → RelationalSpecification → Bool
kept_indices current target =
    unchanged RelationalIndex-discrete (λ (i : RelationalIndex). i.name) current.indices
      (index_at target.indices)

-- The checks that `expected_additions` made.
expected_additions-checks :
    (current target : RelationalSpecification) {additions : RelationalAdditions}
    → expected_additions current target ≡ ok additions
    → ((fields : List FieldAddition) × (all_added_fields
            (entity_at current.entities)
            (entity_at target.entities)
            (sorted_names current)
          ≡ ok fields))
      × (kept_relationships current target ≡ true)
      × (kept_indices current target ≡ true)
unfolding expected_additions
expected_additions-checks current target h =
    let (_, h1) = require-rest (subset Text-discrete (names_of current) (names_of target)) _ h in
    let (fields, turns, h2) =
      >>=-eq-ok
        (all_added_fields (entity_at current.entities) (entity_at target.entities)
          (sorted_names current))
        _ h1 in
    let (_, h3) =
      require-rest
        (subset Text-discrete (relationship_names_of current) (relationship_names_of target)) _
        h2 in
    let (relationships, h4) = require-rest (kept_relationships current target) _ h3 in
    let added = new_names (relationship_names_of current) (relationship_names_of target) in
    let (found, _, h5) = >>=-eq-ok (items_at (relationship_at target.relationships) added) _ h4 in
    let new_entities = new_names (names_of current) (names_of target) in
    let (_, h6) =
      require-rest
        (length (
              keep (λ (r : RelationalRelationship). elem Text-discrete r.source_entity new_entities)
                found)
            + length (unique Text-discrete (relationship_names_of current))
          == length (unique Text-discrete (relationship_names_of target)))
        _ h5 in
    let (_, h7) =
      require-rest (subset Text-discrete (index_names_of current) (index_names_of target)) _ h6 in
    let (indices, _) = require-rest (kept_indices current target) _ h7 in
    ((fields, turns), relationships, indices)

entity_at-declared :
    (s : RelationalSpecification) (name : Text) {e : RelationalEntity}
    → entity_at s.entities name ≡ some e
    → elem Text-discrete name (sorted_names s) ≡ true
unfolding entity_at
entity_at-declared s name e =
    elem-sorted Text-discrete text_leb name (unique Text-discrete (names_of s)) (
      elem-unique Text-discrete name (names_of s)
        (elem-dict_get Text-discrete (λ (e : RelationalEntity). e.name) s.entities name e))

-- If `_expected_additions` accepts a target of the next version, every entity of the current
-- specification is kept and at most grows at its end by optional fields, and the relationships and
-- indices are kept as they are.
pub expected_additions-IsExtension :
    (current target : RelationalSpecification) {additions : RelationalAdditions}
    → expected_additions current target ≡ ok additions
    → target.schema_version ≡ current.schema_version + 1
    → IsExtension current target
expected_additions-IsExtension current target h version =
    let ((fields, turns), relationships, indices) = expected_additions-checks current target h in
    record {
      version = version;
      entities = λ name e.
          let (d, added, found, turn) =
            all_added_fields-ok (entity_at current.entities) (entity_at target.entities)
              (sorted_names current) turns name (entity_at-declared current name e) e in
          let (rest, grown, optional) = added_fields-ok name _ d turn in
          (d, rest, found, grown, optional);
      relationships =
          unchanged-ok RelationalRelationship-discrete (λ (r : RelationalRelationship). r.name)
            current.relationships (relationship_at target.relationships) relationships;
      indices =
          unchanged-ok RelationalIndex-discrete (λ (i : RelationalIndex). i.name) current.indices
            (index_at target.indices) indices;
    }

-- The parts of a transition fit, and it is one that adds or changes something.
pub record IsTransition (t : RelationalTransition) : Type 0 where
  pub extension : IsExtension t.current t.target
  pub exact_additions : expected_additions t.current t.target ≡ ok t.additions
  pub some_change : is_nothing t.additions t.metadata_changes ≡ false

-- What `RelationalTransition._build` has checked when it returns.
build_transition-IsTransition :
    (current target : RelationalSpecification) (additions : RelationalAdditions)
    (changes : List MetadataChange) {t : RelationalTransition}
    → build_transition current target additions changes ≡ ok t
    → (t.current ≡ current) × (t.target ≡ target) × IsTransition t
unfolding build_transition
build_transition-IsTransition current target additions changes h =
    let (first, h1) =
      require-rest
        (same MetadataChanges-discrete changes (sorted metadata_leb changes)
          && distinct MetadataChange-discrete changes
          && target.schema_version == current.schema_version + 1)
        _ h in
    let (expected, made, h2) = >>=-eq-ok (expected_additions current target) _ h1 in
    let (exact, h3) = require-rest (same RelationalAdditions-discrete additions expected) _ h2 in
    let (some_change, h4) = require-rest (not (is_nothing additions changes)) _ h3 in
    let equal = eq_of_same RelationalAdditions-discrete additions expected exact in
    subst (λ t. (t.current ≡ current) × (t.target ≡ target) × IsTransition t) (ok-injective h4)
      (
        refl,
        refl,
        record {
          extension = expected_additions-IsExtension current target made (ground arith);
          exact_additions = made ∙ ap ok (sym equal);
          some_change = ground arith;
        },
      )

-- What `classify_transition` has checked of the two detached manifests.
classify_checked-ok :
    (source destination : ManifestV2) {t : RelationalTransition}
    → classify_checked source destination ≡ ok t
    → (history_is_one_entry_extension source destination ≡ true)
      × (compile_checked_manifest source ≡ ok t.current)
      × (compile_checked_manifest destination ≡ ok t.target)
      × IsTransition t
unfolding classify_checked
classify_checked-ok source destination h =
    let (_, h1) = require-rest (destination.schema_version == source.schema_version + 1) _ h in
    let (history, h2) = require-rest (history_is_one_entry_extension source destination) _ h1 in
    let (current, from_source, h3) = >>=-eq-ok (compile_checked_manifest source) _ h2 in
    let (target, to_destination, h4) = >>=-eq-ok (compile_checked_manifest destination) _ h3 in
    let (_, h5) =
      require-rest (subset Text-discrete (entity_names source) (entity_names destination)) _ h4 in
    let (changes, _, h6) =
      >>=-eq-ok
        (classify_entities (entity_named source.entities) (entity_named destination.entities)
          (sorted text_leb (unique Text-discrete (entity_names source))))
        _ h5 in
    let (global, _, h7) = >>=-eq-ok (classify_global_metadata source destination) _ h6 in
    let new_entities = new_names (entity_names source) (entity_names destination) in
    let (relationships, _, h8) =
      >>=-eq-ok (classify_relationships source destination new_entities) _ h7 in
    let (indices, _, h9) = >>=-eq-ok (classify_indices source destination) _ h8 in
    let (entities, _, h10) = >>=-eq-ok (items_at (entity_at target.entities) new_entities) _ h9 in
    let metadata = sorted metadata_leb (changes.0 ++ global) in
    let additions : RelationalAdditions = record {
      entities = entities;
      fields = changes.1;
      relationships = relationships;
      indices = indices;
    } in
    let (_, h11) = require-rest (not (is_nothing additions metadata)) _ h10 in
    let (e_current, e_target, made) =
      build_transition-IsTransition current target additions metadata h11 in
    (history, from_source ∙ ap ok (sym e_current), to_destination ∙ ap ok (sym e_target), made)

-- A transition that `classify_transition` returns is between the specifications to which the two
-- manifests compile. The target's version is the next one and its history has one entry more; every
-- entity is kept and grows at most at its end, by optional fields that are no primary keys;
-- relationships and indices are kept; the additions are those that `_expected_additions` computes;
-- and something is added or changed.
pub classify_transition-IsTransition :
    (strip : Text → Text) (current target : ManifestV2) {t : RelationalTransition}
    → classify_transition strip current target ≡ ok t
    → (compile_manifest strip current ≡ ok t.current)
      × (compile_manifest strip target ≡ ok t.target)
      × IsTransition t
      × ((source : ManifestV2) × (destination : ManifestV2) × (detached_manifest strip current
            ≡ ok source)
          × (detached_manifest strip target ≡ ok destination)
          × (history_is_one_entry_extension source destination ≡ true))
unfolding classify_transition compile_manifest
classify_transition-IsTransition strip current target h =
    let (source, from_current, h1) = >>=-eq-ok (detached_manifest strip current) _ h in
    let (destination, to_target, h2) = >>=-eq-ok (detached_manifest strip target) _ h1 in
    let (history, compiled, compiled_target, made) = classify_checked-ok source destination h2 in
    (
      simp from_current compiled,
      simp to_target compiled_target,
      made,
      (source, destination, from_current, to_target, history),
    )
