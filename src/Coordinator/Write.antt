-- ===== src/Coordinator/Write.antt =====
-- The registry transactions of the coordinator: the admission, and the two terminal writes.
use aipcs_mcp.Prelude.{if◌then◌else◌, err, ℕ, Option, none, some}
use aipcs_mcp.Platform.{Platform, LifecycleKind}
use aipcs_mcp.Lifecycle.{LifecycleResultCategory, fields_of, LifecycleCommand, LifecycleIntent}
use aipcs_mcp.Registry.{
  Service, LifecycleRegistryOutcome, conflict_claim, stale_revision_outcome,
  unsupported_transition_outcome, operation_in_progress_outcome, completed_claim, prepared_claim,
  recovery_required_claim, valid_completion, LifecycleCompletion, materialise_completion,
  evolve_completion,
}
use aipcs_mcp.Coordinator.Effects.{
  Call, Act, attempt, quietly, return, answer, fail, conclude, Raised, raises_busy,
  raises_unavailable, raises_transient_journal, raises_other, LifecycleExecutionResult,
  completed_with, failed_with,
}
use aipcs_mcp.Coordinator.Contracts.{ServiceStoreLocator, Dependencies}

-- `_before_commit_error`
unfoldable pub before_commit_error : Raised → LifecycleExecutionResult
before_commit_error raises_busy = failed_with LifecycleResultCategory.storage_busy
before_commit_error raises_unavailable = failed_with LifecycleResultCategory.storage_unavailable
before_commit_error raises_transient_journal =
    failed_with LifecycleResultCategory.storage_unavailable
before_commit_error _ = failed_with LifecycleResultCategory.internal_failure

-- `_terminal_write_error`
unfoldable pub terminal_write_error : Raised → LifecycleExecutionResult
terminal_write_error raises_busy = failed_with LifecycleResultCategory.storage_busy
terminal_write_error raises_unavailable = failed_with LifecycleResultCategory.operation_uncertain
terminal_write_error raises_transient_journal =
    failed_with LifecycleResultCategory.operation_uncertain
terminal_write_error _ = failed_with LifecycleResultCategory.internal_failure

-- `_registry_outcome`
unfoldable pub registry_outcome : LifecycleRegistryOutcome → LifecycleExecutionResult
registry_outcome (completed_claim i s) = completed_with s
registry_outcome conflict_claim = failed_with LifecycleResultCategory.changed_fingerprint
registry_outcome stale_revision_outcome = failed_with LifecycleResultCategory.stale_revision
registry_outcome unsupported_transition_outcome =
    failed_with LifecycleResultCategory.unsupported_transition
registry_outcome operation_in_progress_outcome =
    failed_with LifecycleResultCategory.operation_in_progress
registry_outcome (recovery_required_claim i) = failed_with LifecycleResultCategory.recovery_required
registry_outcome (prepared_claim i) = failed_with LifecycleResultCategory.internal_failure

abbrev pub completion_of :
    LifecycleKind → LifecycleIntent → ServiceStoreLocator → ℕ → LifecycleCompletion
completion_of LifecycleKind.materialise i l at =
    materialise_completion i at (record { backend = l.backend; namespace = l.namespace })
completion_of LifecycleKind.evolve i l at = evolve_completion i at

module _ {S U : Type 0} (d : Dependencies S U) where
  -- `_close_only`
  abbrev pub close_only : U → S → S
  close_only u = quietly (d.close u)

  -- `_rollback_close`
  abbrev pub rollback_close : U → S → S
  rollback_close u s = close_only u (quietly (d.rollback u) s)

  module _ {A : Type 0} where
    abbrev pub close_with : U → LifecycleExecutionResult → Raised → Act S A
    close_with u r e s = (err r, close_only u s)

    abbrev pub abort : (Raised → LifecycleExecutionResult) → U → Raised → Act S A
    abort answer_to u e s = (err (answer_to e), rollback_close u s)

    -- A commit and a close whose failure leaves the outcome uncertain.
    abbrev pub commit_and_close : U → Act S A → Act S A
    commit_and_close u next =
        attempt (d.commit u)
          (close_with u (failed_with LifecycleResultCategory.operation_uncertain))
          (λ _.
            attempt (d.close u) (λ _. fail LifecycleResultCategory.operation_uncertain) (λ _. next))

  abbrev pub commit_terminal : U → LifecycleRegistryOutcome → Act S ⊥
  commit_terminal u (completed_claim i s) =
      commit_and_close u (answer (registry_outcome (completed_claim i s)))
  commit_terminal u (recovery_required_claim i) =
      commit_and_close u (answer (registry_outcome (recovery_required_claim i)))
  commit_terminal u o =
      abort (λ _. failed_with LifecycleResultCategory.internal_failure) u raises_other

  -- `_terminal_write`
  unfoldable pub terminal_write : (U → Call S LifecycleRegistryOutcome) → Act S ⊥
  unfolding terminal_write_error registry_outcome
  terminal_write operation =
      attempt d.uows (λ e. answer (terminal_write_error e))
        (λ u. attempt (operation u) (abort terminal_write_error u) (commit_terminal u))

  -- `_finalize_recovery`
  unfoldable pub finalize_recovery : LifecycleIntent → Act S ⊥
  unfolding terminal_write
  finalize_recovery i =
      attempt d.now (λ _. fail LifecycleResultCategory.internal_failure)
        (λ at. terminal_write (λ u. d.finalize_recovery_required u i at))

  -- `_finalize_completed`
  unfoldable pub write_completed : Platform → LifecycleIntent → ServiceStoreLocator → Act S ⊥
  unfolding terminal_write valid_completion
  write_completed p i l =
      attempt d.now (λ _. fail LifecycleResultCategory.internal_failure)
        (λ at.
          let c = completion_of i.kind i l at in
          if valid_completion p c
          then terminal_write (λ u. d.finalize_completed u c)
          else fail LifecycleResultCategory.internal_failure)

  -- `_close_nonmutating`
  unfoldable pub close_nonmutating : {A : Type 0} → U → LifecycleExecutionResult → Act S A
  unfolding before_commit_error
  close_nonmutating u r =
      attempt (d.rollback u) (λ e. answer (before_commit_error e))
        (λ _. attempt (d.close u) (λ e. answer (before_commit_error e)) (λ _. answer r))

  abbrev pub with_source : LifecycleIntent → Option Service → Act S (LifecycleIntent × Service)
  with_source i none = conclude (finalize_recovery i)
  with_source i (some s) = return (i, s)

  -- `_commit_prepared`
  unfoldable pub commit_prepared :
      U → LifecycleIntent → Option Service → Act S (LifecycleIntent × Service)
  unfolding finalize_recovery
  commit_prepared u i source = commit_and_close u (with_source i source)

  abbrev pub admitted_outcome :
      U → LifecycleCommand → LifecycleRegistryOutcome → Act S (LifecycleIntent × Service)
  admitted_outcome u command (prepared_claim i) =
      let c = fields_of command in
      attempt (d.get u c.principal_id c.service_id) (abort before_commit_error u)
        (commit_prepared u i)
  admitted_outcome u command o = close_nonmutating u (registry_outcome o)

  -- `_admit`
  unfoldable pub admit : LifecycleCommand → Act S (LifecycleIntent × Service)
  unfolding before_commit_error registry_outcome close_nonmutating commit_prepared
  admit command =
      attempt d.uows (λ e. answer (before_commit_error e))
        (λ u.
          attempt (d.resolve_or_admit u command) (abort before_commit_error u)
            (admitted_outcome u command))
