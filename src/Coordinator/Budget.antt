-- ===== src/Coordinator/Budget.antt =====
-- What a round of the loop may add to a counter of schema writes, and how it uses up the actions.
use aipcs_mcp.Prelude.{
  if◌then◌else◌, same, any, Result, ok, err, ℕ, ◌+◌, ◌≤◌, ◌<◌, ◌≡◌, refl, ◌≢◌, ◌⊎◌, inl, inr, Bool,
  true, false, Option, none, some, List, [], ◌∷◌, arith,
}
use aipcs_mcp.Platform.{LifecycleKind}
use aipcs_mcp.Lifecycle.{
  LifecyclePhase, RecoveryAction, LifecycleResultCategory, LifecycleObservation,
  materialise_observation, evolve_observation, plan_recovery, RecoveryPlan,
}
use aipcs_mcp.Coordinator.Effects.{Act, proceed, settle, return, Raised, LifecycleExecutionResult}
use aipcs_mcp.Coordinator.Contracts.{MigrationState}
use aipcs_mcp.Coordinator.Apply.{apply_handler, migrated, applied}
use aipcs_mcp.Coordinator.Execute.{
  RecoveryAction-discrete, is_attempted, after_action, reconciled, deferred, Progress,
}
use aipcs_mcp.Coordinator.Quiet.{Counts, is_unavailable, Mild}

-- The schema write of a kind.
abbrev pub domain_action : LifecycleKind → RecoveryAction
domain_action LifecycleKind.materialise = RecoveryAction.apply_initial_schema
domain_action LifecycleKind.evolve = RecoveryAction.apply_transition

abbrev pub one_unless : Bool → ℕ
one_unless true = 0
one_unless false = 1

-- The schema writes that the loop may still make.
abbrev pub budget : LifecycleKind → List RecoveryAction → ℕ
unfolding RecoveryAction-discrete
budget kind attempted =
    one_unless (any (same RecoveryAction-discrete (domain_action kind)) attempted)

-- The rounds that may still go on.
abbrev pub remaining : LifecycleKind → Progress → ℕ
unfolding RecoveryAction-discrete
remaining kind v =
    budget kind v.attempted
    + one_unless (is_attempted v RecoveryAction.prepare_foundation)
    + one_unless v.foundation_reconciled

-- A physical action that is not the schema write of the other kind.
abbrev pub is_action_of : LifecycleKind → RecoveryAction → Bool
is_action_of kind RecoveryAction.prepare_foundation = true
is_action_of LifecycleKind.materialise RecoveryAction.apply_initial_schema = true
is_action_of LifecycleKind.evolve RecoveryAction.apply_transition = true
is_action_of kind _ = false

abbrev pub writes : RecoveryAction → ℕ
writes RecoveryAction.prepare_foundation = 0
writes _ = 1

abbrev pub is_other_write : LifecycleKind → RecoveryAction → Bool
is_other_write LifecycleKind.materialise RecoveryAction.apply_transition = true
is_other_write LifecycleKind.evolve RecoveryAction.apply_initial_schema = true
is_other_write kind _ = false

-- No plan asks for the schema write of the other kind.
pub planned_action :
    (kind : LifecycleKind) (phase : LifecyclePhase) (o : LifecycleObservation) {plan : RecoveryPlan}
    → plan_recovery kind phase o ≡ ok plan
    → is_other_write kind plan.action ≡ false
unfolding plan_recovery
planned_action LifecycleKind.materialise phase (materialise_observation o) h = ground arith
planned_action LifecycleKind.materialise phase (evolve_observation o) h = cc
planned_action LifecycleKind.evolve phase (materialise_observation o) h = cc
planned_action LifecycleKind.evolve phase (evolve_observation o) h = ground arith

-- A first attempt of an action takes what it writes from the budget.
pub attempt_budget :
    (kind : LifecycleKind) (a : RecoveryAction) (attempted : List RecoveryAction)
    → is_action_of kind a ≡ true
    → any (same RecoveryAction-discrete a) attempted ≡ false
    → writes a + budget kind (a ∷ attempted) ≤ budget kind attempted
unfolding RecoveryAction-discrete
attempt_budget kind a attempted h e = ground arith

pub attempt_remaining :
    (kind : LifecycleKind) (a : RecoveryAction) (attempted : List RecoveryAction) (r : Bool)
    → is_action_of kind a ≡ true
    → any (same RecoveryAction-discrete a) attempted ≡ false
    → budget kind (a ∷ attempted)
        + one_unless
            (any (same RecoveryAction-discrete RecoveryAction.prepare_foundation) (a ∷ attempted))
        + one_unless r
      < budget kind attempted
        + one_unless
            (any (same RecoveryAction-discrete RecoveryAction.prepare_foundation) attempted)
        + one_unless r
unfolding RecoveryAction-discrete
attempt_remaining kind a attempted r h e = ground arith

module _ {S : Type 0} (count : S → ℕ) where
  abbrev pub Applied : ℕ → Result LifecycleExecutionResult (Option MigrationState) × S → Type 0
  Applied n (ok m, s) = count s ≤ n
  Applied n (err r, s) = (count s ≤ n) × (is_unavailable r ≡ false)

  handled : (e : Raised) (n : ℕ) (s : S) → count s ≤ n → Applied n (apply_handler e s)
  handled e n s h = ground arith

  pub applied_ok :
      (n : ℕ) (x : Result Raised (Unit {0}) × S)
      → count (x.1) ≤ n
      → Applied n (settle apply_handler applied x)
  applied_ok n (ok u, s) h = h
  applied_ok n (err e, s) h = handled e n s h

  pub migrated_ok :
      (n : ℕ) (x : Result Raised MigrationState × S)
      → count (x.1) ≤ n
      → Applied n (settle apply_handler migrated x)
  migrated_ok n (ok m, s) h = ground arith
  migrated_ok n (err e, s) h = handled e n s h

  -- What a round leaves, where it started with variables `v` and the counter at `c`.
  abbrev pub Advances :
      LifecycleKind → Progress → ℕ → Result LifecycleExecutionResult Progress × S → Type 0
  Advances kind v c (ok v', s) =
      (count s + budget kind v'.attempted ≤ c + budget kind v.attempted)
      × (remaining kind v' < remaining kind v)
      × (v'.attempted ≢ [])
  Advances kind v c (err r, s) =
      (count s ≤ c + budget kind v.attempted)
      × ((is_unavailable r ≡ false) ⊎ ((v.attempted ≡ []) × (count s ≡ c)))

  pub concluded-Advances :
      (kind : LifecycleKind) (v : Progress) (c : ℕ) (x : Result LifecycleExecutionResult ⊥ × S)
      → Mild (Counts count) c x
      → Advances kind v c (proceed (λ z. absurd z) x)
  concluded-Advances kind v c (ok z, s) h = absurd z
  concluded-Advances kind v c (err r, s) h = (by_arith (h.0), inl (h.1))
    where
      by_arith : count s ≡ c → count s ≤ c + budget kind v.attempted
      by_arith e = omega arith

  pub first-Advances :
      (kind : LifecycleKind) (a : RecoveryAction) (v : Progress) (c : ℕ)
      (x : Result LifecycleExecutionResult (Option MigrationState) × S)
      → is_action_of kind a ≡ true
      → is_attempted v a ≡ false
      → Applied (c + writes a) x
      → Advances kind v c (proceed (λ m. return (after_action a v m)) x)
  unfolding RecoveryAction-discrete
  first-Advances kind a v c (ok none, s) h e n = (
    omega (arith, attempt_budget kind a v.attempted h e),
    attempt_remaining kind a v.attempted v.foundation_reconciled h e,
    λ x. cc,
  )
  first-Advances kind a v c (ok (some m), s) h e n = (
    omega (arith, attempt_budget kind a v.attempted h e),
    attempt_remaining kind a v.attempted v.foundation_reconciled h e,
    λ x. cc,
  )
  first-Advances kind a v c (err r, s) h e n =
      (omega (arith, n.0, attempt_budget kind a v.attempted h e), inl (n.1))

  pub again-Advances :
      (kind : LifecycleKind) (v : Progress) (c : ℕ)
      (x : Result LifecycleExecutionResult (Option MigrationState) × S)
      → v.foundation_reconciled ≡ false
      → v.attempted ≢ []
      → Applied c x
      → Advances kind v c (proceed (reconciled v) x)
  unfolding RecoveryAction-discrete
  again-Advances kind v c (ok none, s) h e n = (omega arith, inl refl)
  again-Advances kind v c (ok (some m), s) h e n = (omega arith, rw h (omega arith), e)
  again-Advances kind v c (err r, s) h e n = (omega (arith, n.0), inl (n.1))

  pub deferred-Advances :
      (kind : LifecycleKind) (v : Progress) (c : ℕ) (s : S)
      (category : Option LifecycleResultCategory) (attempted : List RecoveryAction)
      → v.attempted ≡ attempted
      → count s ≡ c
      → Advances kind v c (deferred attempted category s)
  deferred-Advances kind v c s none attempted e h = (omega arith, inl refl)
  deferred-Advances kind v c s (some category) [] e h = (omega arith, inr (e, h))
  deferred-Advances kind v c s (some category) (a ∷ attempted) e h = ground arith

  pub Advances-if :
      (kind : LifecycleKind) (v : Progress) (c : ℕ) (s : S) (b : Bool) (m n : Act S Progress)
      → (b ≡ true → Advances kind v c (m s))
      → (b ≡ false → Advances kind v c (n s))
      → Advances kind v c ((if b then m else n) s)
  Advances-if kind v c s true m n hm hn = hm refl
  Advances-if kind v c s false m n hm hn = hn refl
