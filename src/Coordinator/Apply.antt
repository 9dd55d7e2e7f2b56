-- ===== src/Coordinator/Apply.antt =====
-- `_apply`: the physical action of a recovery plan.
use aipcs_mcp.Prelude.{if◌then◌else◌, Option, none, some}
use aipcs_mcp.Relational.{RelationalSpecification, RelationalTransition}
use aipcs_mcp.Lifecycle.{RecoveryAction, LifecycleResultCategory}
use aipcs_mcp.Coordinator.Effects.{Act, attempt, return, fail, Raised, raises_busy, raises_contract}
use aipcs_mcp.Coordinator.Contracts.{
  is_service_store, ServiceStoreLocator, MigrationState, Dependencies,
}

module _ {S : Type 0} where
  abbrev pub apply_handler : Raised → Act S (Option MigrationState)
  apply_handler raises_busy = fail LifecycleResultCategory.storage_busy
  apply_handler raises_contract = fail LifecycleResultCategory.internal_failure
  apply_handler _ = fail LifecycleResultCategory.operation_uncertain

  abbrev pub migrated : MigrationState → Act S (Option MigrationState)
  migrated m =
      if is_service_store m.component
      then return (some m)
      else fail LifecycleResultCategory.internal_failure

  abbrev pub applied : Unit {0} → Act S (Option MigrationState)
  applied _ = return none

module _ {S U : Type 0} (d : Dependencies S U) (l : ServiceStoreLocator) where
  -- `_apply`
  unfoldable pub apply :
      RecoveryAction
      → RelationalSpecification
      → Option RelationalTransition
      → Act S (Option MigrationState)
  apply RecoveryAction.prepare_foundation spec t = attempt (d.migrate l) apply_handler migrated
  apply RecoveryAction.apply_initial_schema spec t =
      attempt (d.materialise l spec) apply_handler applied
  apply RecoveryAction.apply_transition spec (some t) = attempt (d.evolve l t) apply_handler applied
  apply _ spec t = fail LifecycleResultCategory.internal_failure
