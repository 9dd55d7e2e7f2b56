-- ===== src/Coordinator/Contracts.antt =====
-- The values of storage/contracts.py and the collaborators of the coordinator.
use aipcs_mcp.Prelude.{
  ltb, leb, if◌then◌else◌, ◌==◌, Text, ℕ, Bool, true, false, not, ◌&&◌, Option, none, some, List,
}
use aipcs_mcp.Platform.{Platform}
use aipcs_mcp.Relational.{RelationalSpecification, RelationalTransition}
use aipcs_mcp.Lifecycle.{LifecycleCommand, LifecycleIntent}
use aipcs_mcp.Registry.{
  valid_namespace, namespace_of, Service, StorageBackend, LifecycleRegistryOutcome,
  LifecycleCompletion,
}
use aipcs_mcp.Coordinator.Effects.{Call}

pub data StorageComponent : Type 0 where
  registry_component service_store_component : StorageComponent

pub data MigrationStatus : Type 0 where
  uninitialised outdated ready incompatible dirty : MigrationStatus

pub data DomainSchemaStatus : Type 0 where
  unmaterialised ready incompatible : DomainSchemaStatus

pub record ServiceStoreLocator : Type 0 where
  pub backend : StorageBackend
  pub namespace : Text

pub record StorageAdapterInfo : Type 0 where
  pub backend : StorageBackend
  pub supported_components : List StorageComponent

pub record MigrationState : Type 0 where
  pub component : StorageComponent
  pub applied_revision : ℕ
  pub target_revision : ℕ
  pub status : MigrationStatus

abbrev pub is_service_store : StorageComponent → Bool
is_service_store service_store_component = true
is_service_store registry_component = false

abbrev pub is_ready : MigrationStatus → Bool
is_ready MigrationStatus.ready = true
is_ready _ = false

unfoldable pub StorageBackend-discrete : Discrete StorageBackend
StorageBackend-discrete = hlevel

-- The revisions that each status allows.
abbrev status_revisions : MigrationStatus → ℕ → ℕ → Bool
status_revisions MigrationStatus.uninitialised applied target = applied == 0
status_revisions MigrationStatus.outdated applied target = ltb 0 applied && ltb applied target
status_revisions MigrationStatus.ready applied target = applied == target
status_revisions _ applied target = true

-- `MigrationState.__post_init__`
unfoldable pub valid_migration_state : MigrationState → Bool
valid_migration_state m =
    leb 1 m.target_revision && status_revisions m.status m.applied_revision m.target_revision

-- `ServiceStoreLocator.__post_init__`
unfoldable pub valid_service_store_locator : ServiceStoreLocator → Bool
unfolding valid_namespace
valid_service_store_locator l = valid_namespace l.namespace

-- `ServiceStoreLocator.for_service`
unfoldable pub for_service : Platform → StorageBackend → ℕ → Option ServiceStoreLocator
unfolding valid_service_store_locator namespace_of
for_service p backend service_id =
    let l : ServiceStoreLocator = record {
      backend = backend;
      namespace = namespace_of p service_id;
    } in
    if not (service_id == 0) && valid_service_store_locator l then some l else none

-- The unit-of-work factory, the clock, the service-store catalogue and the domain schema store, on
-- a world `S` with unit-of-work handles `U`.
pub record Dependencies (S U : Type 0) : Type 0 where
  pub uows : Call S U
  pub resolve_or_admit : U → LifecycleCommand → Call S LifecycleRegistryOutcome
  pub get : U → Text → ℕ → Call S (Option Service)
  pub finalize_completed : U → LifecycleCompletion → Call S LifecycleRegistryOutcome
  pub finalize_recovery_required : U → LifecycleIntent → ℕ → Call S LifecycleRegistryOutcome
  pub commit : U → Call S (Unit {0})
  pub rollback : U → Call S (Unit {0})
  pub close : U → Call S (Unit {0})
  pub now : Call S ℕ
  pub info : Call S StorageAdapterInfo
  pub allocate : ℕ → Call S ServiceStoreLocator
  pub inspect_migration : ServiceStoreLocator → Call S MigrationState
  pub migrate : ServiceStoreLocator → Call S MigrationState
  pub inspect : ServiceStoreLocator → RelationalSpecification → Call S DomainSchemaStatus
  pub materialise : ServiceStoreLocator → RelationalSpecification → Call S (Unit {0})
  pub evolve : ServiceStoreLocator → RelationalTransition → Call S (Unit {0})
