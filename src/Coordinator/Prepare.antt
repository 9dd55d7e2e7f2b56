-- ===== src/Coordinator/Prepare.antt =====
-- What `execute` does before its loop: the source is compared, the store located, the manifests
-- compiled.
use aipcs_mcp.Prelude.{
  if◌then◌else◌, same, ◌==◌, is_none, any, Text-discrete, ok, err, Bool, true, false, not, ◌&&◌,
  Option, none, some, ℕ_discrete,
}
use aipcs_mcp.Manifest.{ManifestV2, manifest_eq}
use aipcs_mcp.Platform.{Platform, LifecycleKind}
use aipcs_mcp.Relational.{
  Contract, RelationalSpecification, RelationalTransition, compile_manifest, classify_transition,
}
use aipcs_mcp.Lifecycle.{LifecycleResultCategory, LifecycleCommand, LifecycleIntent}
use aipcs_mcp.Registry.{
  is_active, is_seeded, namespace_of, MaterialisationStorage, Service, is_some_eq,
}
use aipcs_mcp.Coordinator.Effects.{
  Act, attempt, return, fail, ◌>>=◌, conclude, Raised, raises_busy, raises_unavailable,
  raises_transient_journal,
}
use aipcs_mcp.Coordinator.Contracts.{
  is_service_store, StorageBackend-discrete, ServiceStoreLocator, StorageAdapterInfo, Dependencies,
}
use aipcs_mcp.Coordinator.Write.{finalize_recovery, admit}

abbrev kind_matches : LifecycleKind → LifecycleIntent → Service → ManifestV2 → Bool
kind_matches LifecycleKind.materialise i s m =
    is_seeded s.design_state
    && manifest_eq m i.target_manifest
    && is_some_eq ℕ_discrete s.schema_version 1
    && is_none s.materialised_at
    && is_none s.storage
kind_matches LifecycleKind.evolve i s m =
    not (is_seeded s.design_state) && not (is_none s.materialised_at) && not (is_none s.storage)

abbrev manifest_matches : LifecycleIntent → Service → Option ManifestV2 → Bool
manifest_matches i s none = false
manifest_matches i s (some m) = kind_matches i.kind i s m

-- `_source_matches`
unfoldable pub source_matches : LifecycleIntent → Service → Bool
unfolding manifest_eq Text-discrete
source_matches i s =
    same Text-discrete s.principal_id i.principal_id
    && s.service_id == i.service_id
    && is_active s.operational_status
    && s.service_revision == i.expected_service_revision
    && is_some_eq ℕ_discrete s.schema_version i.expected_schema_version
    && manifest_matches i s s.manifest

-- `_valid_locator`
unfoldable pub valid_locator :
    Platform → StorageAdapterInfo → ServiceStoreLocator → LifecycleIntent → Bool
unfolding StorageBackend-discrete Text-discrete namespace_of
valid_locator p info l i =
    any is_service_store info.supported_components
    && same StorageBackend-discrete l.backend info.backend
    && same Text-discrete l.namespace (namespace_of p i.service_id)

abbrev pub stored_at : ServiceStoreLocator → Option MaterialisationStorage → Bool
stored_at l none = false
stored_at l (some storage) =
    same StorageBackend-discrete storage.backend l.backend
    && same Text-discrete storage.namespace l.namespace

abbrev pub storage_matches : LifecycleKind → Service → ServiceStoreLocator → Bool
storage_matches LifecycleKind.materialise s l = true
storage_matches LifecycleKind.evolve s l = stored_at l s.storage

-- What the loop reads.
pub record Reconciliation : Type 0 where
  pub intent : LifecycleIntent
  pub locator : ServiceStoreLocator
  pub target : RelationalSpecification
  pub transition : Option RelationalTransition

abbrev pub Compiled : Type 0
Compiled = RelationalSpecification × Option RelationalTransition

module _ {S : Type 0} where
  abbrev pub or_internal : {A : Type 0} → Contract A → Act S A
  or_internal (ok a) = return a
  or_internal (err e) = fail LifecycleResultCategory.internal_failure

  abbrev pub compile_source :
      Platform → LifecycleIntent → RelationalSpecification → Option ManifestV2 → Act S Compiled
  compile_source p i target none = fail LifecycleResultCategory.internal_failure
  compile_source p i target (some m) = do
    t ← or_internal (classify_transition p.strip m i.target_manifest)
    return (target, some t)

  abbrev pub compile_kind :
      Platform
      → LifecycleIntent
      → Service
      → RelationalSpecification
      → LifecycleKind
      → Act S Compiled
  compile_kind p i s target LifecycleKind.materialise = return (target, none)
  compile_kind p i s target LifecycleKind.evolve = compile_source p i target s.manifest

  -- `_compile`
  unfoldable pub compile : Platform → LifecycleIntent → Service → Act S Compiled
  unfolding compile_manifest classify_transition
  compile p i s = do
    target ← or_internal (compile_manifest p.strip i.target_manifest)
    compile_kind p i s target i.kind

  abbrev pub locator_handler : {A : Type 0} → Raised → Act S A
  locator_handler raises_busy = fail LifecycleResultCategory.storage_busy
  locator_handler raises_unavailable = fail LifecycleResultCategory.storage_unavailable
  locator_handler raises_transient_journal = fail LifecycleResultCategory.storage_unavailable
  locator_handler _ = fail LifecycleResultCategory.internal_failure

module _ {S U : Type 0} (d : Dependencies S U) (p : Platform) where
  abbrev pub located :
      LifecycleIntent
      → Service
      → StorageAdapterInfo
      → ServiceStoreLocator
      → Act S ServiceStoreLocator
  located i s info l =
      if valid_locator p info l i && storage_matches i.kind s l
      then return l
      else fail LifecycleResultCategory.internal_failure

  -- `_locator`
  unfoldable pub locator : LifecycleIntent → Service → Act S ServiceStoreLocator
  unfolding valid_locator StorageBackend-discrete Text-discrete
  locator i s =
      attempt d.info locator_handler
        (λ info. attempt (d.allocate i.service_id) locator_handler (located i s info))

  abbrev pub compiled_run : LifecycleIntent → ServiceStoreLocator → Compiled → Act S Reconciliation
  compiled_run i l (target, transition) =
      return (record { intent = i; locator = l; target = target; transition = transition })

  abbrev pub compile_at : LifecycleIntent → Service → ServiceStoreLocator → Act S Reconciliation
  compile_at i s l = compile p i s >>= compiled_run i l

  abbrev pub prepare_matching : LifecycleIntent → Service → Bool → Act S Reconciliation
  prepare_matching i s false = conclude (finalize_recovery d i)
  prepare_matching i s true = locator i s >>= compile_at i s

  abbrev pub prepare_admitted : LifecycleIntent × Service → Act S Reconciliation
  prepare_admitted (i, s) = prepare_matching i s (source_matches i s)

  -- `execute` up to its loop. Every command of the model is of one of the two classes.
  unfoldable pub prepare : LifecycleCommand → Act S Reconciliation
  unfolding admit source_matches finalize_recovery locator compile
  prepare command = admit d command >>= prepare_admitted
