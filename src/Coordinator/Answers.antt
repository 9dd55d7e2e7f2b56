-- ===== src/Coordinator/Answers.antt =====
-- `execute` as a whole: it answers, makes one schema write at most, and says that storage is
-- unavailable only where it made none.
use aipcs_mcp.Prelude.{
  some-injective, Result, ok, err, ℕ, zero, suc, ◌+◌, ◌≤◌, ◌<◌, ◌≡◌, refl, subst, ◌⊎◌, inl, inr,
  false, some, arith,
}
use aipcs_mcp.Platform.{Platform, LifecycleKind}
use aipcs_mcp.Lifecycle.{LifecycleResultCategory, LifecycleCommand}
use aipcs_mcp.Coordinator.Effects.{LifecycleExecutionResult, failed_with}
use aipcs_mcp.Coordinator.Contracts.{Dependencies}
use aipcs_mcp.Coordinator.Prepare.{prepare, Reconciliation}
use aipcs_mcp.Coordinator.Execute.{
  RecoveryAction-discrete, start, step, next_round, rounds, run_prepared, execute, Progress,
}
use aipcs_mcp.Coordinator.Quiet.{Counts, is_unavailable, IsWriteCounter}
use aipcs_mcp.Coordinator.Budget.{remaining, Advances}
use aipcs_mcp.Coordinator.Progress.{step-Advances}
use aipcs_mcp.Coordinator.Prepared.{prepare-IsKept}

module _ {S U : Type 0} (d : Dependencies S U) (p : Platform) where
  -- The counter that stands still, for what does not depend on one.
  module _ (count : S → ℕ) (k : IsWriteCounter d count) (run : Reconciliation) where
    next_round_answers :
        (n : ℕ) (v : Progress) (c : ℕ) (x : Result LifecycleExecutionResult Progress × S)
        → ((v' : Progress) (s : S)
            → remaining run.intent.kind v' < n
            → (r : LifecycleExecutionResult × S) × (rounds d p run n v' s ≡ some r))
        → remaining run.intent.kind v ≤ n
        → Advances count run.intent.kind v c x
        → (r : LifecycleExecutionResult × S) × (next_round d p run (rounds d p run n) x ≡ some r)
    unfolding RecoveryAction-discrete
    next_round_answers n v c (err r, s) go h e = ((r, s), refl)
    next_round_answers n v c (ok v', s) go h (_, e, _) = go v' s (omega (arith, e))

    rounds_answer :
        (n : ℕ) (v : Progress) (s : S)
        → remaining run.intent.kind v < n
        → (r : LifecycleExecutionResult × S) × (rounds d p run n v s ≡ some r)
    unfolding rounds
    rounds_answer zero v s h = absurd (omega arith)
    rounds_answer (suc n) v s h =
        next_round_answers n v (count s) (step d p run v s) (rounds_answer n) (omega arith)
          (step-Advances d p run count k v (count s) s refl)

  module _ (run : Reconciliation) (r : LifecycleExecutionResult × S) where
    next_round_more :
        (n m : ℕ) (x : Result LifecycleExecutionResult Progress × S)
        → ((v : Progress) (s : S) → rounds d p run n v s ≡ some r → rounds d p run m v s ≡ some r)
        → next_round d p run (rounds d p run n) x ≡ some r
        → next_round d p run (rounds d p run m) x ≡ some r
    next_round_more n m (err e, s) go h = h
    next_round_more n m (ok v, s) go h = go v s h

    rounds_more :
        (n m : ℕ) (v : Progress) (s : S)
        → n ≤ m
        → rounds d p run n v s ≡ some r
        → rounds d p run m v s ≡ some r
    unfolding rounds
    rounds_more zero m v s le h = cc
    rounds_more (suc n) zero v s le h = absurd (omega arith)
    rounds_more (suc n) (suc m) v s le h =
        next_round_more n m (step d p run v s) (λ v' s'. rounds_more n m v' s' (omega arith)) h

  still : IsWriteCounter d (λ _. 0)
  still = record {
    keeps = record {
      at_uows = λ c s e. e;
      at_resolve = λ u command c s e. e;
      at_get = λ u principal id c s e. e;
      at_completed = λ u x c s e. e;
      at_recovery = λ u i at c s e. e;
      at_commit = λ u c s e. e;
      at_rollback = λ u c s e. e;
      at_close = λ u c s e. e;
      at_now = λ c s e. e;
      at_info = λ c s e. e;
      at_allocate = λ id c s e. e;
      at_inspect_migration = λ l c s e. e;
      at_migrate = λ l c s e. e;
      at_inspect = λ l spec c s e. e;
    };
    at_materialise = λ l spec s. omega arith;
    at_evolve = λ l t s. omega arith;
  }

  start-remaining : (run : Reconciliation) → remaining run.intent.kind start < 4
  unfolding RecoveryAction-discrete
  start-remaining run = ground arith

  run_prepared_answers :
      (x : Result LifecycleExecutionResult Reconciliation × S)
      → (r : LifecycleExecutionResult × S) × ((fuel : ℕ)
          → 4 ≤ fuel
          → run_prepared d p fuel x ≡ some r)
  run_prepared_answers (err r, s) = ((r, s), λ fuel h. refl)
  run_prepared_answers (ok run, s) =
      let (r, h) = rounds_answer (λ _. 0) still run 4 start s (start-remaining run) in
      (r, λ fuel le. rounds_more run r 4 fuel start s le h)

  -- Whatever the collaborators do, `execute` answers after four rounds of its loop at most, and a
  -- bound on the rounds from four on does not change the answer.
  pub execute_total :
      (command : LifecycleCommand) (s : S)
      → (r : LifecycleExecutionResult × S) × ((fuel : ℕ)
          → 4 ≤ fuel
          → execute d p fuel command s ≡ some r)
  unfolding execute
  execute_total command s = run_prepared_answers (prepare d p command s)

  module _ (count : S → ℕ) (k : IsWriteCounter d count) where
    -- What an answer says of the counter, where the loop has variables `v` and the counter is `c`.
    abbrev Ended : LifecycleKind → Progress → ℕ → LifecycleExecutionResult × S → Type 0
    Ended kind v c (r, s) = Advances count kind v c (err r, s)

    module _ (run : Reconciliation) (r : LifecycleExecutionResult × S) where
      next_round_ends :
          (n : ℕ) (v : Progress) (c : ℕ) (x : Result LifecycleExecutionResult Progress × S)
          → ((v' : Progress) (s : S)
              → rounds d p run n v' s ≡ some r
              → Ended run.intent.kind v' (count s) r)
          → Advances count run.intent.kind v c x
          → next_round d p run (rounds d p run n) x ≡ some r
          → Ended run.intent.kind v c r
      unfolding RecoveryAction-discrete
      next_round_ends n v c (err e, s) go a h =
          subst (Ended run.intent.kind v c) (some-injective h) a
      next_round_ends n v c (ok v', s) go (b, _, used) h =
          let (b', u) = go v' s h in
          (omega arith, elim u [ inl t ↦ inl t | inr (e, _) ↦ absurd (used e) ])

      rounds_end :
          (n : ℕ) (v : Progress) (s : S)
          → rounds d p run n v s ≡ some r
          → Ended run.intent.kind v (count s) r
      unfolding rounds
      rounds_end zero v s h = cc
      rounds_end (suc n) v s h =
          next_round_ends n v (count s) (step d p run v s) (rounds_end n)
            (step-Advances d p run count k v (count s) s refl) h

    abbrev Bounded : LifecycleExecutionResult × S → ℕ → Type 0
    Bounded r c = (count (r.1) ≤ c + 1) × ((is_unavailable (r.0) ≡ false) ⊎ (count (r.1) ≡ c))

    run_prepared_ends :
        (fuel : ℕ) (x : Result LifecycleExecutionResult Reconciliation × S)
        {r : LifecycleExecutionResult × S}
        → run_prepared d p fuel x ≡ some r
        → Bounded r (count (x.1))
    unfolding RecoveryAction-discrete
    run_prepared_ends fuel (err e, s) h =
        subst (λ r. Bounded r (count s)) (some-injective h) (omega arith, inr refl)
    run_prepared_ends fuel (ok run, s) {r} h =
        let (b, u) = rounds_end run r fuel start s h in
        (omega arith, elim u [ inl t ↦ inl t | inr (_, e) ↦ inr e ])

    execute_ends :
        (fuel : ℕ) (command : LifecycleCommand) (s : S) {r : LifecycleExecutionResult × S}
        → execute d p fuel command s ≡ some r
        → Bounded r (count s)
    unfolding execute
    execute_ends fuel command s {r} h =
        subst (Bounded r) (prepare-IsKept d p (Counts count) k.keeps command (count s) s refl)
          (run_prepared_ends fuel (prepare d p command s) h)

    -- If a counter of the world is raised by a call of `materialise` or `evolve` by one at most and
    -- by no other call, then whenever `execute` answers it has raised the counter by one at most:
    -- one execution makes one schema write at most.
    pub execute_writes_once :
        (fuel : ℕ) (command : LifecycleCommand) (s : S) (r : LifecycleExecutionResult) (s' : S)
        → execute d p fuel command s ≡ some (r, s')
        → count s' ≤ count s + 1
    execute_writes_once fuel command s r s' h = (execute_ends fuel command s h).0

    -- If a counter of the world is raised by a call of `materialise` or `evolve` by one at most and
    -- by no other call, then `execute` answers that storage is unavailable only with the counter as
    -- it was: after a schema write it never gives that answer.
    pub unavailable_writes_nothing :
        (fuel : ℕ) (command : LifecycleCommand) (s s' : S)
        → execute d p fuel command s
          ≡ some (failed_with LifecycleResultCategory.storage_unavailable, s')
        → count s' ≡ count s
    unavailable_writes_nothing fuel command s s' h = elim ((execute_ends fuel command s h).1) [
      | inl e ↦ cc
      | inr e ↦ e
    ]
