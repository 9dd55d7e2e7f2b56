-- ===== src/Coordinator/Progress.antt =====
-- One round of the loop keeps to its budget.
use aipcs_mcp.Prelude.{
  same, any, Result, ok, err, ℕ, ◌+◌, ◌≡◌, refl, ◌≢◌, inl, true, false, not, ◌&&◌, Option, none,
  some, List, [], ◌∷◌, arith,
}
use aipcs_mcp.Platform.{Platform}
use aipcs_mcp.Relational.{RelationalTransition}
use aipcs_mcp.Lifecycle.{
  Checked, FoundationObservation, RecoveryAction, LifecycleResultCategory, LifecycleObservation,
  result_category, plan_recovery, RecoveryPlan,
}
use aipcs_mcp.Coordinator.Effects.{proceed, fail, LifecycleExecutionResult}
use aipcs_mcp.Coordinator.Contracts.{Dependencies}
use aipcs_mcp.Coordinator.Observe.{observe}
use aipcs_mcp.Coordinator.Apply.{apply}
use aipcs_mcp.Coordinator.Write.{finalize_recovery, write_completed}
use aipcs_mcp.Coordinator.Prepare.{Reconciliation}
use aipcs_mcp.Coordinator.Execute.{
  RecoveryAction-discrete, is_attempted, is_dirty_foundation, observed_foundation, is_prepare,
  is_reconcilable, planned, reconcile, act_again, act_first, act, follow, plan_and_follow, step,
  Progress,
}
use aipcs_mcp.Coordinator.Quiet.{Counts, Mild, IsWriteCounter}
use aipcs_mcp.Coordinator.Budget.{
  is_action_of, writes, is_other_write, planned_action, Applied, applied_ok, migrated_ok, Advances,
  concluded-Advances, first-Advances, again-Advances, deferred-Advances, Advances-if,
}
use aipcs_mcp.Coordinator.Reads.{observe-IsMild}
use aipcs_mcp.Coordinator.Commits.{finalize_recovery-IsMild, write_completed-IsMild}

module _ {S U : Type 0} (d : Dependencies S U) (p : Platform) (run : Reconciliation) (count : S → ℕ)
    (k : IsWriteCounter d count) where
  apply-Applied :
      (a : RecoveryAction) (t : Option RelationalTransition) (c : ℕ) (s : S)
      → count s ≡ c
      → Applied count (c + writes a) (apply d run.locator a run.target t s)
  unfolding apply
  apply-Applied RecoveryAction.prepare_foundation t c s e =
      migrated_ok count (c + 0) (d.migrate run.locator s)
        (omega (arith, k.keeps.at_migrate run.locator (count s) s refl))
  apply-Applied RecoveryAction.apply_initial_schema t c s e =
      applied_ok count (c + 1) (d.materialise run.locator run.target s)
        (omega (arith, k.at_materialise run.locator run.target s))
  apply-Applied RecoveryAction.apply_transition none c s e = (omega arith, refl)
  apply-Applied RecoveryAction.apply_transition (some t) c s e =
      applied_ok count (c + 1) (d.evolve run.locator t s)
        (omega (arith, k.at_evolve run.locator t s))
  apply-Applied RecoveryAction.finalize_registry t c s e = (omega arith, refl)
  apply-Applied RecoveryAction.replay_complete t c s e = (omega arith, refl)
  apply-Applied RecoveryAction.defer_observation t c s e = (omega arith, refl)
  apply-Applied RecoveryAction.recovery_required t c s e = (omega arith, refl)

  prepare-Applied :
      (t : Option RelationalTransition) (c : ℕ) (s : S)
      → count s ≡ c
      → Applied count c (apply d run.locator RecoveryAction.prepare_foundation run.target t s)
  unfolding apply
  prepare-Applied t c s e =
      migrated_ok count c (d.migrate run.locator s)
        (omega (arith, k.keeps.at_migrate run.locator (count s) s refl))

  not_empty :
      (attempted : List RecoveryAction) (a : RecoveryAction)
      → any (same RecoveryAction-discrete a) attempted ≡ true
      → attempted ≢ []
  unfolding RecoveryAction-discrete
  not_empty [] a h e = cc
  not_empty (x ∷ xs) a h e = cc

  module _ (a : RecoveryAction) (f : FoundationObservation) (v : Progress) (c : ℕ) (s : S) where
    act_again-Advances :
        v.attempted ≢ []
        → count s ≡ c
        → Advances count run.intent.kind v c (act_again d p run a f v s)
    unfolding apply RecoveryAction-discrete
    act_again-Advances h e =
        Advances-if count run.intent.kind v c s
          (is_prepare a
            && is_dirty_foundation f
            && is_reconcilable v.foundation_result
            && not v.foundation_reconciled)
          (reconcile d p run v) (fail LifecycleResultCategory.operation_uncertain)
          (λ t.
            again-Advances count run.intent.kind v c _ (ground arith) h
              (prepare-Applied run.transition c s e))
          (λ t. (omega arith, inl refl))

    act-Advances :
        is_action_of run.intent.kind a ≡ true
        → count s ≡ c
        → Advances count run.intent.kind v c (act d p run a f v s)
    unfolding apply RecoveryAction-discrete
    act-Advances h e =
        Advances-if count run.intent.kind v c s (is_attempted v a) (act_again d p run a f v)
          (act_first d p run a v) (λ t. act_again-Advances (not_empty v.attempted a t) e)
          (λ t.
            first-Advances count run.intent.kind a v c _ h t (apply-Applied a run.transition c s e))

  follow-Advances :
      (plan : RecoveryPlan) (f : FoundationObservation) (v : Progress) (c : ℕ) (s : S)
      (a : RecoveryAction)
      → is_other_write run.intent.kind a ≡ false
      → count s ≡ c
      → Advances count run.intent.kind v c (follow d p run plan f v a s)
  unfolding apply RecoveryAction-discrete finalize_recovery write_completed
  follow-Advances plan f v c s RecoveryAction.prepare_foundation h e =
      act-Advances RecoveryAction.prepare_foundation f v c s refl e
  follow-Advances plan f v c s RecoveryAction.apply_initial_schema h e =
      act-Advances RecoveryAction.apply_initial_schema f v c s (ground arith) e
  follow-Advances plan f v c s RecoveryAction.apply_transition h e =
      act-Advances RecoveryAction.apply_transition f v c s (ground arith) e
  follow-Advances plan f v c s RecoveryAction.finalize_registry h e =
      concluded-Advances count run.intent.kind v c _
        (write_completed-IsMild d (Counts count) k.keeps p run.intent run.locator c s e)
  follow-Advances plan f v c s RecoveryAction.replay_complete h e = (omega arith, inl refl)
  follow-Advances plan f v c s RecoveryAction.defer_observation h e =
      deferred-Advances count run.intent.kind v c s (result_category plan) v.attempted refl e
  follow-Advances plan f v c s RecoveryAction.recovery_required h e =
      concluded-Advances count run.intent.kind v c _
        (finalize_recovery-IsMild d (Counts count) k.keeps run.intent c s e)

  planned-Advances :
      (v : Progress) (c : ℕ) (s : S) (o : LifecycleObservation) (x : Checked RecoveryPlan)
      → plan_recovery run.intent.kind run.intent.phase o ≡ x
      → count s ≡ c
      → Advances count run.intent.kind v c (
          proceed (λ plan. follow d p run plan (observed_foundation o) v plan.action) (planned x s))
  unfolding apply RecoveryAction-discrete finalize_recovery write_completed
  planned-Advances v c s o (ok plan) h e =
      follow-Advances plan (observed_foundation o) v c s plan.action
        (planned_action run.intent.kind run.intent.phase o h) e
  planned-Advances v c s o (err x) h e = (omega arith, inl refl)

  observed-Advances :
      (v : Progress) (c : ℕ) (x : Result LifecycleExecutionResult LifecycleObservation × S)
      → Mild (Counts count) c x
      → Advances count run.intent.kind v c (proceed (plan_and_follow d p run v) x)
  unfolding apply RecoveryAction-discrete finalize_recovery write_completed plan_and_follow
  observed-Advances v c (ok o, s) e = planned-Advances v c s o _ refl e
  observed-Advances v c (err r, s) e = (omega (arith, e.0), inl (e.1))

  pub step-Advances :
      (v : Progress) (c : ℕ) (s : S)
      → count s ≡ c
      → Advances count run.intent.kind v c (step d p run v s)
  unfolding step
  step-Advances v c s e =
      observed-Advances v c (observe d run.locator run.intent run.target run.transition s) (
        observe-IsMild d (Counts count) k.keeps run.locator run.intent run.target run.transition c s
          e)
