-- ===== src/Samples/Manifests.antt =====
-- Small manifests on which the tests and the instances of the theorems run.
use aipcs_mcp.Prelude.{
  Text, codes, ok, err, ◌≡◌, refl, Bool, true, false, none, some, List, [], ◌∷◌, ◌++◌,
}
use aipcs_mcp.Relational.{
  Contract, RelationalSpecification, RelationalTransition, compile_manifest, classify_transition,
}
use aipcs_mcp.Manifest.{
  AttributeDefinition, EntityDefinition, RelationshipEndpoint, ManifestV2, AttributeType, string,
  integer, datetime, uuid, restrict, model_validate,
}

abbrev pub plain : Text → AttributeType → Bool → Bool → AttributeDefinition
plain n t r k = record {
  name = n;
  type = t;
  required = r;
  primary_key = k;
  description = none;
  allowed_values = none;
  retrieval_mode = none;
}

abbrev pub managed_attributes : List AttributeDefinition
managed_attributes =
    plain (codes "id") uuid true true
    ∷ plain (codes "owner_id") string true false
    ∷ plain (codes "created_at") datetime true false
    ∷ plain (codes "updated_at") datetime true false
    ∷ plain (codes "created_via") string true false
    ∷ plain (codes "record_version") integer true false
    ∷ []

abbrev pub entity_with : Text → List AttributeDefinition → EntityDefinition
entity_with n more = record {
  name = n;
  attributes = managed_attributes ++ more;
  description = none;
}

abbrev pub ends_at : Text → Text → RelationshipEndpoint
ends_at e f = record { entity = e; field = f }

-- Notes with a title.
abbrev pub notes : ManifestV2
notes = record {
  schema_version = 1;
  entities = entity_with (codes "note") (plain (codes "title") string false false ∷ []) ∷ [];
  relationships = [];
  indices = [];
  query_patterns = [];
  discovery_facets = [];
  retrieval_guidance = none;
  migration_history = [];
}

-- The next version: notes gain a body, and tags that refer to a note are new.
abbrev pub tagged_notes : ManifestV2
tagged_notes = record {
  schema_version = 2;
  entities =
      entity_with (codes "tag") (plain (codes "note_id") uuid true false ∷ [])
      ∷ entity_with (codes "note")
          (plain (codes "title") string false false ∷ plain (codes "body") string false false ∷ [])
      ∷ [];
  relationships =
      record {
        name = codes "tag_note";
        from = ends_at (codes "tag") (codes "note_id");
        to = ends_at (codes "note") (codes "id");
        on_delete = restrict;
      }
      ∷ [];
  indices =
      record {
        name = codes "by_title";
        entity = codes "note";
        fields = codes "title" ∷ [];
        unique = false;
      }
      ∷ [];
  query_patterns = [];
  discovery_facets = [];
  retrieval_guidance = none;
  migration_history =
      record { from_schema_version = 1; to_schema_version = 2; operations = codes "add tags" ∷ [] }
      ∷ [];
}

abbrev pub no_strip : Text → Text
no_strip s = s

notes_valid : model_validate no_strip notes ≡ some notes
unfolding model_validate
notes_valid = refl

pub tagged_notes_valid : model_validate no_strip tagged_notes ≡ some tagged_notes
unfolding model_validate
tagged_notes_valid = refl

pub notes_compile : (s : RelationalSpecification) × (compile_manifest no_strip notes ≡ ok s)
unfolding compile_manifest
notes_compile = (_, refl)

abbrev is_ok : {A : Type 0} → Contract A → Bool
is_ok (ok a) = true
is_ok (err e) = false

pub notes_transition :
    (t : RelationalTransition) × (classify_transition no_strip notes tagged_notes ≡ ok t)
unfolding classify_transition
notes_transition = (_, refl)

-- Tags and a body are an additive change; leaving them out again is not.
notes_evolve :
    (is_ok (classify_transition no_strip notes tagged_notes) ≡ true)
    × (is_ok (classify_transition no_strip tagged_notes notes) ≡ false)
unfolding classify_transition
notes_evolve = (refl, refl)
