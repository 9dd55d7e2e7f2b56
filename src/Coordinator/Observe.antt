-- ===== src/Coordinator/Observe.antt =====
-- `_foundation`, `_domain_state` and `_observe`: what the coordinator reads of the storage.
use aipcs_mcp.Prelude.{if◌then◌else◌, ok, err, not, ◌&&◌, Option, none, some}
use aipcs_mcp.Platform.{LifecycleKind}
use aipcs_mcp.Relational.{RelationalSpecification, RelationalTransition}
use aipcs_mcp.Lifecycle.{
  Checked, LifecyclePhase, FoundationObservation, DomainObservation, LifecycleResultCategory,
  observe_materialise, observe_evolve, LifecycleObservation, LifecycleIntent,
}
use aipcs_mcp.Coordinator.Effects.{
  Act, attempt, return, fail, ◌>>=◌, Raised, raises_busy, raises_unavailable,
  raises_transient_journal, raises_migration,
}
use aipcs_mcp.Coordinator.Contracts.{
  is_service_store, is_ready, ServiceStoreLocator, MigrationState, Dependencies, MigrationStatus,
  DomainSchemaStatus,
}

abbrev pub foundation_status : MigrationStatus → FoundationObservation
foundation_status MigrationStatus.uninitialised = FoundationObservation.uninitialised
foundation_status MigrationStatus.outdated = FoundationObservation.outdated
foundation_status MigrationStatus.ready = FoundationObservation.ready
foundation_status MigrationStatus.dirty = FoundationObservation.dirty
foundation_status MigrationStatus.incompatible = FoundationObservation.incompatible

abbrev pub domain_status : DomainSchemaStatus → DomainObservation
domain_status DomainSchemaStatus.unmaterialised = DomainObservation.unmaterialised
domain_status DomainSchemaStatus.ready = DomainObservation.ready
domain_status DomainSchemaStatus.incompatible = DomainObservation.incompatible

module _ {S : Type 0} where
  -- The last lines of `_foundation`.
  abbrev pub read_status : MigrationState → Act S FoundationObservation
  read_status m =
      if is_service_store m.component
      then return (foundation_status m.status)
      else fail LifecycleResultCategory.internal_failure

  -- The handlers of the calls inside the handler of a transient journal.
  abbrev pub unread : Raised → Act S FoundationObservation
  unread raises_busy = return FoundationObservation.busy
  unread raises_unavailable = return FoundationObservation.uncertain
  unread raises_transient_journal = return FoundationObservation.uncertain
  unread raises_migration = return FoundationObservation.uncertain
  unread _ = fail LifecycleResultCategory.internal_failure

  abbrev pub promoted : MigrationState → Act S FoundationObservation
  promoted m =
      if is_service_store m.component && is_ready m.status
      then read_status m
      else return FoundationObservation.uncertain

  -- The handlers of `migrate` after unavailable storage.
  abbrev pub not_acquired : Raised → Act S FoundationObservation
  not_acquired raises_busy = return FoundationObservation.busy
  not_acquired raises_unavailable = return FoundationObservation.unavailable
  not_acquired raises_transient_journal = return FoundationObservation.unavailable
  not_acquired raises_migration = return FoundationObservation.uncertain
  not_acquired _ = fail LifecycleResultCategory.internal_failure

module _ {S U : Type 0} (d : Dependencies S U) (l : ServiceStoreLocator) where
  -- What follows the call that a transient journal led to.
  abbrev pub after_journal : MigrationState → Act S FoundationObservation
  after_journal m =
      if not (is_service_store m.component)
      then fail LifecycleResultCategory.internal_failure
      else if is_ready m.status
      then read_status m
      else attempt (d.inspect_migration l) unread promoted

  -- The handlers of `migrate` after a transient journal.
  abbrev pub journal_handler : Raised → Act S FoundationObservation
  journal_handler raises_busy = return FoundationObservation.busy
  journal_handler raises_unavailable = attempt (d.inspect_migration l) unread after_journal
  journal_handler raises_transient_journal = attempt (d.inspect_migration l) unread after_journal
  journal_handler raises_migration = return FoundationObservation.uncertain
  journal_handler _ = fail LifecycleResultCategory.internal_failure

  abbrev pub foundation_handler : Raised → Act S FoundationObservation
  foundation_handler raises_busy = return FoundationObservation.busy
  foundation_handler raises_transient_journal = attempt (d.migrate l) journal_handler after_journal
  foundation_handler raises_unavailable = attempt (d.migrate l) not_acquired read_status
  foundation_handler raises_migration = return FoundationObservation.uncertain
  foundation_handler _ = fail LifecycleResultCategory.internal_failure

  -- `_foundation`
  unfoldable pub foundation : Act S FoundationObservation
  foundation = attempt (d.inspect_migration l) foundation_handler read_status

  abbrev pub read_domain : DomainSchemaStatus → Act S DomainObservation
  read_domain status = return (domain_status status)

  abbrev pub unread_domain : Raised → Act S DomainObservation
  unread_domain raises_busy = return DomainObservation.busy
  unread_domain raises_unavailable = return DomainObservation.uncertain
  unread_domain raises_transient_journal = return DomainObservation.uncertain
  unread_domain raises_migration = return DomainObservation.uncertain
  unread_domain _ = fail LifecycleResultCategory.internal_failure

  -- What the foundation says after a transient journal of the domain.
  abbrev pub inspect_again :
      RelationalSpecification → FoundationObservation → Act S DomainObservation
  inspect_again spec FoundationObservation.ready =
      attempt (d.inspect l spec) unread_domain read_domain
  inspect_again spec FoundationObservation.busy = return DomainObservation.busy
  inspect_again spec FoundationObservation.unavailable = return DomainObservation.unavailable
  inspect_again spec FoundationObservation.uncertain = return DomainObservation.uncertain
  inspect_again spec _ = fail LifecycleResultCategory.operation_uncertain

  abbrev pub domain_handler : RelationalSpecification → Raised → Act S DomainObservation
  domain_handler spec raises_busy = return DomainObservation.busy
  domain_handler spec raises_transient_journal = foundation >>= inspect_again spec
  domain_handler spec raises_unavailable = return DomainObservation.unavailable
  domain_handler spec raises_migration = return DomainObservation.uncertain
  domain_handler spec _ = fail LifecycleResultCategory.internal_failure

  -- `_domain_state`
  unfoldable pub domain_state : RelationalSpecification → Act S DomainObservation
  unfolding foundation
  domain_state spec = attempt (d.inspect l spec) (domain_handler spec) read_domain

  -- An observation that its class rejects is caught by `execute`.
  abbrev pub accepted : {A : Type 0} → Checked A → Act S A
  accepted (ok a) = return a
  accepted (err e) = fail LifecycleResultCategory.internal_failure

  abbrev pub domain_where_ready :
      RelationalSpecification → FoundationObservation → Act S DomainObservation
  domain_where_ready spec FoundationObservation.ready = domain_state spec
  domain_where_ready spec _ = return DomainObservation.not_observed

  abbrev pub domain_of_transition : Option RelationalTransition → Act S DomainObservation
  domain_of_transition none = fail LifecycleResultCategory.internal_failure
  domain_of_transition (some t) = domain_state t.current

  abbrev pub source_state :
      Option RelationalTransition → DomainObservation → Act S DomainObservation
  source_state t DomainObservation.unmaterialised = domain_of_transition t
  source_state t DomainObservation.incompatible = domain_of_transition t
  source_state t _ = return DomainObservation.not_observed

  abbrev pub observe_ready_evolve :
      LifecyclePhase
      → RelationalSpecification
      → Option RelationalTransition
      → FoundationObservation
      → Act S LifecycleObservation
  observe_ready_evolve phase spec t FoundationObservation.ready = do
    target ← domain_state spec
    source ← source_state t target
    accepted (observe_evolve phase FoundationObservation.ready target source)
  observe_ready_evolve phase spec t f =
      accepted
        (observe_evolve phase f DomainObservation.not_observed DomainObservation.not_observed)

  abbrev pub observe_kind :
      LifecycleKind
      → LifecyclePhase
      → RelationalSpecification
      → Option RelationalTransition
      → FoundationObservation
      → Act S LifecycleObservation
  observe_kind LifecycleKind.materialise phase spec t f = do
    target ← domain_where_ready spec f
    accepted (observe_materialise phase f target)
  observe_kind LifecycleKind.evolve phase spec t f = observe_ready_evolve phase spec t f

  -- `_observe`
  unfoldable pub observe :
      LifecycleIntent
      → RelationalSpecification
      → Option RelationalTransition
      → Act S LifecycleObservation
  unfolding foundation domain_state observe_materialise observe_evolve
  observe i spec t = foundation >>= observe_kind i.kind i.phase spec t
