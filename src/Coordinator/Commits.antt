-- ===== src/Coordinator/Commits.antt =====
-- The terminal writes and the preparation keep what the collaborators keep, and a terminal
-- write never answers that storage is unavailable.
use aipcs_mcp.Prelude.{◌≡◌, refl, false, Option, none, some, arith}
use aipcs_mcp.Platform.{Platform}
use aipcs_mcp.Lifecycle.{fields_of, LifecycleCommand, LifecycleIntent}
use aipcs_mcp.Registry.{
  Service, LifecycleRegistryOutcome, conflict_claim, stale_revision_outcome,
  unsupported_transition_outcome, operation_in_progress_outcome, completed_claim, prepared_claim,
  recovery_required_claim, valid_completion,
}
use aipcs_mcp.Coordinator.Effects.{Call, Act, conclude, Raised, LifecycleExecutionResult}
use aipcs_mcp.Coordinator.Contracts.{ServiceStoreLocator, Dependencies}
use aipcs_mcp.Coordinator.Write.{
  terminal_write_error, registry_outcome, completion_of, rollback_close, abort, commit_and_close,
  commit_terminal, terminal_write, finalize_recovery, write_completed, close_nonmutating,
  commit_prepared, admitted_outcome, admit,
}
use aipcs_mcp.Coordinator.Quiet.{
  Leaves, is_unavailable, IsMild, IsKept, IsKept-of_mild, IsMild-if, IsMild-attempt, IsMild-bind,
  IsKept-attempt, IsKeeper,
}

terminal_write_error_available : (r : Raised) → is_unavailable (terminal_write_error r) ≡ false
unfolding terminal_write_error
terminal_write_error_available r = ground arith

registry_outcome_available :
    (o : LifecycleRegistryOutcome) → is_unavailable (registry_outcome o) ≡ false
unfolding registry_outcome
registry_outcome_available o = ground arith

module _ {S U : Type 0} (d : Dependencies S U) {I : Type 0} (Inv : I → S → Type 0)
    (k : IsKeeper d Inv) where
  rollback_close_kept : (u : U) (c : I) (s : S) → Inv c s → Inv c (rollback_close d u s)
  rollback_close_kept u c s e = k.at_close u c _ (k.at_rollback u c s e)

  module _ (A : Type 0) where
    abort-IsMild :
        (answer_to : Raised → LifecycleExecutionResult) (u : U)
        → ((r : Raised) → is_unavailable (answer_to r) ≡ false)
        → (r : Raised) → IsMild Inv (abort d {A = A} answer_to u r)
    abort-IsMild answer_to u available r c s e = (rollback_close_kept u c s e, available r)

    pub concluded-IsMild : (m : Act S ⊥) → IsMild Inv m → IsMild Inv (conclude {A = A} m)
    concluded-IsMild m h = IsMild-bind Inv m (λ x. absurd x) h (λ x. absurd x)

    commit_and_close-IsMild :
        (u : U) (next : Act S A) → IsMild Inv next → IsMild Inv (commit_and_close d u next)
    commit_and_close-IsMild u next h =
        IsMild-attempt Inv (d.commit u) _ _ (k.at_commit u) (λ r c s e. (k.at_close u c s e, refl))
          (λ _. IsMild-attempt Inv (d.close u) _ _ (k.at_close u) (λ r c s e. (e, refl)) (λ _. h))

  commit_terminal-IsMild :
      (u : U) (o : LifecycleRegistryOutcome) → IsMild Inv (commit_terminal d u o)
  commit_terminal-IsMild u (completed_claim i x) =
      commit_and_close-IsMild ⊥ u _ (λ c s e. (e, registry_outcome_available (completed_claim i x)))
  commit_terminal-IsMild u (recovery_required_claim i) =
      commit_and_close-IsMild ⊥ u _
        (λ c s e. (e, registry_outcome_available (recovery_required_claim i)))
  commit_terminal-IsMild u conflict_claim = λ c s e. (rollback_close_kept u c s e, refl)
  commit_terminal-IsMild u stale_revision_outcome = λ c s e. (rollback_close_kept u c s e, refl)
  commit_terminal-IsMild u unsupported_transition_outcome =
      λ c s e. (rollback_close_kept u c s e, refl)
  commit_terminal-IsMild u operation_in_progress_outcome =
      λ c s e. (rollback_close_kept u c s e, refl)
  commit_terminal-IsMild u (prepared_claim i) = λ c s e. (rollback_close_kept u c s e, refl)

  terminal_write-IsMild :
      (operation : U → Call S LifecycleRegistryOutcome)
      → ((u : U) → Leaves Inv (operation u))
      → IsMild Inv (terminal_write d operation)
  unfolding terminal_write
  terminal_write-IsMild operation h =
      IsMild-attempt Inv d.uows _ _ k.at_uows (λ r c s e. (e, terminal_write_error_available r))
        (λ u.
          IsMild-attempt Inv (operation u) _ _ (h u)
            (abort-IsMild ⊥ terminal_write_error u terminal_write_error_available)
            (commit_terminal-IsMild u))

  pub finalize_recovery-IsMild : (i : LifecycleIntent) → IsMild Inv (finalize_recovery d i)
  unfolding finalize_recovery
  finalize_recovery-IsMild i =
      IsMild-attempt Inv d.now _ _ k.at_now (λ r c s e. (e, refl))
        (λ at. terminal_write-IsMild _ (λ u. k.at_recovery u i at))

  pub write_completed-IsMild :
      (p : Platform) (i : LifecycleIntent) (l : ServiceStoreLocator)
      → IsMild Inv (write_completed d p i l)
  unfolding write_completed
  write_completed-IsMild p i l =
      IsMild-attempt Inv d.now _ _ k.at_now (λ r c s e. (e, refl))
        (λ at.
          let completion = completion_of i.kind i l at in
          IsMild-if Inv (valid_completion p completion) _ _
            (terminal_write-IsMild _ (λ u. k.at_completed u completion)) (λ c s e. (e, refl)))

  module _ (A : Type 0) where
    close_nonmutating-IsKept :
        (u : U) (r : LifecycleExecutionResult) → IsKept Inv (close_nonmutating d {A = A} u r)
    unfolding close_nonmutating
    close_nonmutating-IsKept u r =
        IsKept-attempt Inv (d.rollback u) _ _ (k.at_rollback u) (λ x c s e. e)
          (λ _. IsKept-attempt Inv (d.close u) _ _ (k.at_close u) (λ x c s e. e) (λ _ c s e. e))

  commit_prepared-IsKept :
      (u : U) (i : LifecycleIntent) (source : Option Service)
      → IsKept Inv (commit_prepared d u i source)
  unfolding commit_prepared
  commit_prepared-IsKept u i none = IsKept-of_mild Inv _ (
      commit_and_close-IsMild _ u _
        (concluded-IsMild _ (finalize_recovery d i) (finalize_recovery-IsMild i)))
  commit_prepared-IsKept u i (some x) =
      IsKept-of_mild Inv _ (commit_and_close-IsMild _ u _ (λ c s e. e))

  admitted_outcome-IsKept :
      (u : U) (command : LifecycleCommand) (o : LifecycleRegistryOutcome)
      → IsKept Inv (admitted_outcome d u command o)
  admitted_outcome-IsKept u command (prepared_claim i) =
      let f = fields_of command in
      IsKept-attempt Inv (d.get u f.principal_id f.service_id) _ _
        (k.at_get u f.principal_id f.service_id) (λ r c s e. rollback_close_kept u c s e)
        (commit_prepared-IsKept u i)
  admitted_outcome-IsKept u command conflict_claim = close_nonmutating-IsKept _ u _
  admitted_outcome-IsKept u command stale_revision_outcome = close_nonmutating-IsKept _ u _
  admitted_outcome-IsKept u command unsupported_transition_outcome = close_nonmutating-IsKept _ u _
  admitted_outcome-IsKept u command operation_in_progress_outcome = close_nonmutating-IsKept _ u _
  admitted_outcome-IsKept u command (completed_claim i x) = close_nonmutating-IsKept _ u _
  admitted_outcome-IsKept u command (recovery_required_claim i) = close_nonmutating-IsKept _ u _

  pub admit-IsKept : (command : LifecycleCommand) → IsKept Inv (admit d command)
  unfolding admit
  admit-IsKept command =
      IsKept-attempt Inv d.uows _ _ k.at_uows (λ r c s e. e)
        (λ u.
          IsKept-attempt Inv (d.resolve_or_admit u command) _ _ (k.at_resolve u command)
            (λ r c s e. rollback_close_kept u c s e) (admitted_outcome-IsKept u command))
