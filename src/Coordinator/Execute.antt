-- ===== src/Coordinator/Execute.antt =====
-- `execute`: the loop that observes, plans and acts.
use aipcs_mcp.Prelude.{
  if◌then◌else◌, same, any, Result, ok, err, ℕ, zero, suc, Bool, true, false, not, ◌&&◌, Option,
  none, some, List, [], ◌∷◌,
}
use aipcs_mcp.Platform.{Platform}
use aipcs_mcp.Lifecycle.{
  Checked, FoundationObservation, RecoveryAction, LifecycleResultCategory, LifecycleObservation,
  materialise_observation, evolve_observation, result_category, plan_recovery, RecoveryPlan,
  LifecycleCommand,
}
use aipcs_mcp.Coordinator.Effects.{Act, return, fail, ◌>>=◌, conclude, LifecycleExecutionResult}
use aipcs_mcp.Coordinator.Contracts.{MigrationState, Dependencies, MigrationStatus}
use aipcs_mcp.Coordinator.Observe.{observe}
use aipcs_mcp.Coordinator.Apply.{apply}
use aipcs_mcp.Coordinator.Write.{finalize_recovery, write_completed}
use aipcs_mcp.Coordinator.Prepare.{prepare, Reconciliation}

unfoldable pub RecoveryAction-discrete : Discrete RecoveryAction
RecoveryAction-discrete = hlevel

-- The variables of the loop.
pub record Progress : Type 0 where
  pub attempted : List RecoveryAction
  pub foundation_result : Option MigrationState
  pub foundation_reconciled : Bool

abbrev pub start : Progress
start = record { attempted = []; foundation_result = none; foundation_reconciled = false }

-- `action in attempted`
abbrev pub is_attempted : Progress → RecoveryAction → Bool
is_attempted v a = any (same RecoveryAction-discrete a) v.attempted

abbrev pub is_dirty_foundation : FoundationObservation → Bool
is_dirty_foundation FoundationObservation.dirty = true
is_dirty_foundation _ = false

abbrev pub observed_foundation : LifecycleObservation → FoundationObservation
observed_foundation (materialise_observation o) = o.foundation
observed_foundation (evolve_observation o) = o.foundation

abbrev pub is_prepare : RecoveryAction → Bool
is_prepare RecoveryAction.prepare_foundation = true
is_prepare _ = false

-- A result that one more migration may follow: dirty or ready.
abbrev pub is_reconcilable : Option MigrationState → Bool
is_reconcilable none = false
is_reconcilable (some m) = elim m.status [
  | MigrationStatus.dirty ↦ true
  | MigrationStatus.ready ↦ true
  | _ ↦ false
]

-- `foundation_result = action_result`, where that is a migration state.
abbrev pub after_action : RecoveryAction → Progress → Option MigrationState → Progress
after_action a v none = record v { attempted = a ∷ v.attempted }
after_action a v (some m) = record v { attempted = a ∷ v.attempted; foundation_result = some m }

module _ {S : Type 0} where
  -- `continue`, where the repeated migration returned its state.
  abbrev pub reconciled : Progress → Option MigrationState → Act S Progress
  reconciled v none = fail LifecycleResultCategory.operation_uncertain
  reconciled v (some m) =
      return (record v { foundation_result = some m; foundation_reconciled = true })

  abbrev pub planned : Checked RecoveryPlan → Act S RecoveryPlan
  planned (ok plan) = return plan
  planned (err e) = fail LifecycleResultCategory.internal_failure

  abbrev pub deferred : List RecoveryAction → Option LifecycleResultCategory → Act S Progress
  deferred attempted none = fail LifecycleResultCategory.internal_failure
  deferred [] (some c) = fail c
  deferred (a ∷ attempted) (some LifecycleResultCategory.storage_unavailable) =
      fail LifecycleResultCategory.operation_uncertain
  deferred (a ∷ attempted) (some c) = fail c

module _ {S U : Type 0} (d : Dependencies S U) (p : Platform) (run : Reconciliation) where
  abbrev pub reconcile : Progress → Act S Progress
  reconcile v = do
    m ← apply d run.locator RecoveryAction.prepare_foundation run.target run.transition
    reconciled v m

  -- `if plan.action in attempted`
  abbrev pub act_again : RecoveryAction → FoundationObservation → Progress → Act S Progress
  act_again a f v =
      if is_prepare a
        && is_dirty_foundation f
        && is_reconcilable v.foundation_result
        && not v.foundation_reconciled
      then reconcile v
      else fail LifecycleResultCategory.operation_uncertain

  abbrev pub act_first : RecoveryAction → Progress → Act S Progress
  act_first a v = do
    m ← apply d run.locator a run.target run.transition
    return (after_action a v m)

  abbrev pub act : RecoveryAction → FoundationObservation → Progress → Act S Progress
  act a f v = if is_attempted v a then act_again a f v else act_first a v

  abbrev pub follow :
      RecoveryPlan → FoundationObservation → Progress → RecoveryAction → Act S Progress
  follow plan f v RecoveryAction.defer_observation = deferred v.attempted (result_category plan)
  follow plan f v RecoveryAction.recovery_required = conclude (finalize_recovery d run.intent)
  follow plan f v RecoveryAction.finalize_registry =
      conclude (write_completed d p run.intent run.locator)
  follow plan f v RecoveryAction.replay_complete = fail LifecycleResultCategory.internal_failure
  follow plan f v RecoveryAction.prepare_foundation = act RecoveryAction.prepare_foundation f v
  follow plan f v RecoveryAction.apply_initial_schema = act RecoveryAction.apply_initial_schema f v
  follow plan f v RecoveryAction.apply_transition = act RecoveryAction.apply_transition f v

  -- The plan for an observation, and what is done about it.
  unfoldable pub plan_and_follow : Progress → LifecycleObservation → Act S Progress
  unfolding plan_recovery apply finalize_recovery write_completed result_category
      RecoveryAction-discrete
  plan_and_follow v o = do
    plan ← planned (plan_recovery run.intent.kind run.intent.phase o)
    follow plan (observed_foundation o) v plan.action

  -- One round of the loop: it answers, or goes on with new variables.
  unfoldable pub step : Progress → Act S Progress
  unfolding observe plan_and_follow
  step v = observe d run.locator run.intent run.target run.transition >>= plan_and_follow v

  abbrev pub next_round :
      (Progress → S → Option (LifecycleExecutionResult × S))
      → Result LifecycleExecutionResult Progress × S
      → Option (LifecycleExecutionResult × S)
  next_round rounds (err r, s) = some (r, s)
  next_round rounds (ok v, s) = rounds v s

  -- The loop for at most so many rounds: `none` stands for a loop that goes on after them.
  unfoldable pub rounds : ℕ → Progress → S → Option (LifecycleExecutionResult × S)
  unfolding step
  rounds zero v s = none
  rounds (suc n) v s = next_round (rounds n) (step v s)

module _ {S U : Type 0} (d : Dependencies S U) (p : Platform) where
  abbrev pub run_prepared :
      ℕ → Result LifecycleExecutionResult Reconciliation × S → Option (LifecycleExecutionResult × S)
  run_prepared fuel (err r, s) = some (r, s)
  run_prepared fuel (ok run, s) = rounds d p run fuel start s

  -- `execute`
  unfoldable pub execute : ℕ → LifecycleCommand → S → Option (LifecycleExecutionResult × S)
  unfolding prepare rounds
  execute fuel command s = run_prepared fuel (prepare d p command s)
