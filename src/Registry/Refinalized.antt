-- ===== src/Registry/Refinalized.antt =====
-- `finalize_completed` can be repeated on the registry that it left.
use aipcs_mcp.Prelude.{
  if◌then◌else◌, >>=-eq-ok, ok-injective, ok, ℕ, ◌≡◌, refl, sym, ap, ◌∙◌, subst, ◌≢◌, inl, inr,
  true, map, arith,
}
use aipcs_mcp.Platform.{Platform, IsStripping}
use aipcs_mcp.Lifecycle.{LifecyclePhase, with_phase, LifecycleIntent}
use aipcs_mcp.Lifecycle.Intents.{with_phase_once}
use aipcs_mcp.Registry.Tables.{
  stored_service, append, is_prepared_claim, update_claim, ClaimRow, Registry, AuditOutcome,
  audit_completed, audit_recovery_required,
}
use aipcs_mcp.Registry.Claims.{
  valid_terminal_service, LifecycleRegistryOutcome, conflict_claim, stale_revision_outcome,
  unsupported_transition_outcome, operation_in_progress_outcome, completed_claim, prepared_claim,
  recovery_required_claim,
}
use aipcs_mcp.Registry.Admit.{Admission}
use aipcs_mcp.Registry.Completion.{
  prepared_intent, completed_at, terminal_service, LifecycleCompletion,
}
use aipcs_mcp.Registry.Finalize.{
  terminal_or_prepared, append_terminal, to_recovery, to_completed, finalize_prepared,
  finalize_completed,
}
use aipcs_mcp.Registry.Finalized.{finalize_service-ok, IsRecovered, IsCompleted}
use aipcs_mcp.Registry.Updates.{update_claim-ok, save-ok}
use aipcs_mcp.Registry.Decoded.{decode_intent-IsDecoded}
use aipcs_mcp.Registry.PreparedRow.{
  terminal_or_prepared-IsPreparedRow, changed_row, again_recovered, again_completed, IsPreparedRow,
}

append_terminal-claims :
    (i : LifecycleIntent) (outcome : AuditOutcome) (at : ℕ) (r : Registry)
    → (append_terminal i outcome at r).claims ≡ r.claims
unfolding append_terminal append
append_terminal-claims i outcome at r = refl

-- The claims after an update of the claim and the audit row that follows it.
updated_claims :
    (i : LifecycleIntent) (change : ClaimRow → ClaimRow) (outcome : AuditOutcome) (at : ℕ)
    (r updated final : Registry)
    → update_claim i change r ≡ ok updated
    → final ≡ append_terminal i outcome at updated
    → final.claims ≡ map (λ c. if is_prepared_claim i c then change c else c) r.claims
updated_claims i change outcome at r updated final h e =
    ap (λ (x : Registry). x.claims) e
    ∙ append_terminal-claims i outcome at updated
    ∙ ap (λ (x : Registry). x.claims) ((update_claim-ok i change r h).1)

module _ (p : Platform) (strips : IsStripping p) (c : LifecycleCompletion) (r : Registry) where
  -- The intent in a terminal phase.
  terminal_intent :
      (x : IsPreparedRow p r (prepared_intent c)) (phase : LifecyclePhase) {i : LifecycleIntent}
      → phase ≢ LifecyclePhase.prepared
      → with_phase p (prepared_intent c) phase ≡ ok i
      → i ≡ record (prepared_intent c) { phase = phase }
  terminal_intent x phase ne h =
      let (_, is_intent) = decode_intent-IsDecoded p strips x.row x.decoded in
      let (moved, _, _) =
        with_phase_once p strips (prepared_intent c) phase is_intent x.prepared ne in
      ok-injective (sym h ∙ moved)

  replays :
      (r' : Registry) (o : LifecycleRegistryOutcome)
      → terminal_or_prepared p r' (prepared_intent c) ≡ ok o
      → finalize_prepared p c r' o ≡ ok (o, r')
      → finalize_completed p c r' ≡ ok (o, r')
  unfolding finalize_completed
  replays r' o e f = simp e f

  module _ (a : Admission) (x : IsPreparedRow p r (prepared_intent c)) where
    recovered_again :
        IsRecovered p (prepared_intent c) (completed_at c) r a → finalize_completed p c (a.1) ≡ ok a
    recovered_again m =
        let i = prepared_intent c in
        let claims =
          updated_claims i to_recovery audit_recovery_required (completed_at c) r m.updated (a.1)
            m.update m.final in
        let row = changed_row p strips r i x (a.1) to_recovery (λ y. refl) claims in
        let terminal =
          terminal_intent x LifecyclePhase.recovery_required (λ e. absurd (ground arith)) m.moved in
        replays (a.1) _ (again_recovered p strips r i x (a.1) row) refl
        ∙ ap (λ (o : LifecycleRegistryOutcome). ok (o, a.1))
            (sym (m.outcome ∙ ap recovery_required_claim terminal))

    completed_again : IsCompleted p c r a → finalize_completed p c (a.1) ≡ ok a
    completed_again m =
        let i = prepared_intent c in
        let s = terminal_service c m.service in
        let saved = save-ok p s i.expected_service_revision r m.save_done in
        let change : ClaimRow → ClaimRow =
          λ y. if is_prepared_claim i y then to_completed s y else y in
        let claims =
          updated_claims i (to_completed s) audit_completed (completed_at c) m.saved m.updated (a.1)
            m.update m.final
          ∙ ap (map change) saved.claims_kept in
        let row = changed_row p strips r i x (a.1) (to_completed s) (λ y. refl) claims in
        let terminal =
          terminal_intent x LifecyclePhase.completed (λ e. absurd (ground arith)) m.moved in
        let valid = subst (λ j. valid_terminal_service j s ≡ true) terminal m.terminal in
        replays (a.1) _ (again_completed p strips r i x (a.1) s row saved.valid valid) refl
        ∙ ap (λ (o : LifecycleRegistryOutcome). ok (o, a.1))
            (sym (m.outcome ∙ ap (λ j. completed_claim j s) terminal))

  prepared_again :
      (stored : LifecycleIntent) {a : Admission}
      → terminal_or_prepared p r (prepared_intent c) ≡ ok (prepared_claim stored)
      → finalize_prepared p c r (prepared_claim stored) ≡ ok a
      → finalize_completed p c (a.1) ≡ ok a
  prepared_again stored {a} existing h =
      let i = prepared_intent c in
      let x = terminal_or_prepared-IsPreparedRow p strips r i existing in
      let (s, found, h1) = >>=-eq-ok (stored_service p r i.principal_id i.service_id) _ h in
      elim (finalize_service-ok p c r s found h1) [
        | inl (_, m) ↦ recovered_again a x m
        | inr m ↦ completed_again a x m
      ]

  -- The outcomes of a claim that is no longer prepared.
  unchanged_again :
      (o : LifecycleRegistryOutcome) {a : Admission}
      → terminal_or_prepared p r (prepared_intent c) ≡ ok o
      → finalize_prepared p c r o ≡ ok (o, r)
      → finalize_prepared p c r o ≡ ok a
      → finalize_completed p c (a.1) ≡ ok a
  unchanged_again o {a} existing kept h =
      subst (λ (x : Admission). finalize_completed p c (x.1) ≡ ok x) (ok-injective (sym kept ∙ h))
        (replays r o existing kept)

  outcome_again :
      (o : LifecycleRegistryOutcome) {a : Admission}
      → terminal_or_prepared p r (prepared_intent c) ≡ ok o
      → finalize_prepared p c r o ≡ ok a
      → finalize_completed p c (a.1) ≡ ok a
  outcome_again (prepared_claim stored) e h = prepared_again stored e h
  outcome_again conflict_claim e h = unchanged_again conflict_claim e refl h
  outcome_again stale_revision_outcome e h = unchanged_again stale_revision_outcome e refl h
  outcome_again unsupported_transition_outcome e h =
      unchanged_again unsupported_transition_outcome e refl h
  outcome_again operation_in_progress_outcome e h =
      unchanged_again operation_in_progress_outcome e refl h
  outcome_again (completed_claim i s) e h = unchanged_again (completed_claim i s) e refl h
  outcome_again (recovery_required_claim i) e h =
      unchanged_again (recovery_required_claim i) e refl h

  -- If the platform's removal of white space is idempotent and `finalize_completed` returns, then
  -- the same call on the registry that it left returns the same outcome and changes nothing.
  pub finalize_completed-again :
      {a : Admission} → finalize_completed p c r ≡ ok a → finalize_completed p c (a.1) ≡ ok a
  unfolding finalize_completed
  finalize_completed-again h =
      let (o, existing, h1) = >>=-eq-ok (terminal_or_prepared p r (prepared_intent c)) _ h in
      outcome_again o existing h1
