-- ===== src/Registry/Completion.antt =====
-- The completions of application/models.py, and what the SQLite unit of work makes of them.
use aipcs_mcp.Prelude.{
  leb, same, ◌==◌, is_none, Text-discrete, ℕ, ◌+◌, Bool, false, not, ◌&&◌, Option, none, some,
  ℕ_discrete,
}
use aipcs_mcp.Manifest.{ManifestV2, manifest_eq}
use aipcs_mcp.Platform.{LifecycleKind-discrete, Platform, LifecycleKind}
use aipcs_mcp.Lifecycle.{LifecyclePhase-discrete, LifecyclePhase, LifecycleIntent}
use aipcs_mcp.Registry.Services.{
  is_active, is_seeded, valid_namespace, namespace_of, MaterialisationStorage, Service, DesignState,
}
use aipcs_mcp.Registry.Claims.{is_some_eq}

pub data LifecycleCompletion : Type 0 where
  materialise_completion : LifecycleIntent → ℕ → MaterialisationStorage → LifecycleCompletion
  evolve_completion : LifecycleIntent → ℕ → LifecycleCompletion

abbrev pub prepared_intent : LifecycleCompletion → LifecycleIntent
prepared_intent (materialise_completion i at storage) = i
prepared_intent (evolve_completion i at) = i

abbrev pub completed_at : LifecycleCompletion → ℕ
completed_at (materialise_completion i at storage) = at
completed_at (evolve_completion i at) = at

-- The `__post_init__` of the two classes, with that of the storage.
unfoldable pub valid_completion : Platform → LifecycleCompletion → Bool
unfolding LifecyclePhase-discrete LifecycleKind-discrete valid_namespace namespace_of Text-discrete
valid_completion p (materialise_completion i at storage) =
    same LifecyclePhase-discrete i.phase LifecyclePhase.prepared
    && same LifecycleKind-discrete i.kind LifecycleKind.materialise
    && valid_namespace storage.namespace
    && same Text-discrete storage.namespace (namespace_of p i.service_id)
valid_completion p (evolve_completion i at) =
    same LifecyclePhase-discrete i.phase LifecyclePhase.prepared
    && same LifecycleKind-discrete i.kind LifecycleKind.evolve

abbrev is_next : Option ℕ → ℕ → Bool
is_next none v = false
is_next (some u) v = v == u + 1

abbrev kind_preconditions : LifecycleCompletion → Service → ManifestV2 → Bool
kind_preconditions (materialise_completion i at storage) s m =
    is_seeded s.design_state
    && manifest_eq m i.target_manifest
    && is_some_eq ℕ_discrete s.schema_version 1
    && is_none s.materialised_at
    && is_none s.storage
kind_preconditions (evolve_completion i at) s m =
    not (is_seeded s.design_state)
    && not (is_none s.materialised_at)
    && not (is_none s.storage)
    && is_next s.schema_version i.target_manifest.schema_version

abbrev manifest_preconditions : LifecycleCompletion → Service → Option ManifestV2 → Bool
manifest_preconditions c s none = false
manifest_preconditions c s (some m) = kind_preconditions c s m

-- `_finalization_preconditions`
unfoldable pub finalization_preconditions : LifecycleCompletion → Service → Bool
unfolding manifest_eq Text-discrete
finalization_preconditions c s =
    let i = prepared_intent c in
    same Text-discrete s.principal_id i.principal_id
    && s.service_id == i.service_id
    && is_active s.operational_status
    && s.service_revision == i.expected_service_revision
    && is_some_eq ℕ_discrete s.schema_version i.expected_schema_version
    && leb s.updated_at (completed_at c)
    && manifest_preconditions c s s.manifest

-- `_terminal_service`
unfoldable pub terminal_service : LifecycleCompletion → Service → Service
terminal_service (materialise_completion i at storage) s = record s {
  design_state = DesignState.materialised;
  materialised_at = some at;
  storage = some storage;
  updated_at = at;
  last_activity_at = at;
  service_revision = i.expected_service_revision + 1;
}
terminal_service (evolve_completion i at) s = record s {
  manifest = some i.target_manifest;
  schema_version = some i.target_manifest.schema_version;
  updated_at = at;
  last_activity_at = at;
  service_revision = i.expected_service_revision + 1;
}
