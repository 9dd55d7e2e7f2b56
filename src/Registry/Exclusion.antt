-- ===== src/Registry/Exclusion.antt =====
-- The finalisation of a claim keeps the claims exclusive.
use aipcs_mcp.Prelude.{
  if◌then◌else◌, any, Text, >>=-eq-ok, ok-injective, ok, ℕ, ◌≡◌, refl, sym, ap, ◌∙◌, subst, inl,
  inr, true, false, List, [], ◌∷◌, map, arith,
}
use aipcs_mcp.Platform.{Platform}
use aipcs_mcp.Lifecycle.{LifecycleIntent}
use aipcs_mcp.Registry.Claims.{
  LifecycleRegistryOutcome, conflict_claim, stale_revision_outcome, unsupported_transition_outcome,
  operation_in_progress_outcome, completed_claim, prepared_claim, recovery_required_claim,
}
use aipcs_mcp.Registry.Admit.{Admission}
use aipcs_mcp.Registry.Finalize.{
  terminal_or_prepared, append_terminal, to_recovery, to_completed, finalize_completed,
  recover_prepared, finalize_recovery_required,
}
use aipcs_mcp.Registry.Finalized.{
  mark_recovery_required-ok, finalize_completed-ok, IsRecovered, IsCompleted,
}
use aipcs_mcp.Registry.Tables.{
  is_active_phase, has_key, blocks, append, is_prepared, is_prepared_claim, update_claim, ClaimRow,
  Registry, ClaimPhase, AuditOutcome, audit_completed, audit_recovery_required,
}
use aipcs_mcp.Registry.Completion.{
  prepared_intent, completed_at, terminal_service, LifecycleCompletion,
}
use aipcs_mcp.Registry.Updates.{update_claim-ok, save-ok}
use aipcs_mcp.Registry.Exclusive.{IsExclusive}

-- An update of a row that keeps its key and its service, and makes no row active.
record Keeps (f : ClaimRow → ClaimRow) : Type 0 where
  pub principal : (c : ClaimRow) → (f c).principal_id ≡ c.principal_id
  pub key : (c : ClaimRow) → (f c).idempotency_key ≡ c.idempotency_key
  pub service : (c : ClaimRow) → (f c).service_id ≡ c.service_id
  pub inactive :
      (c : ClaimRow) → is_active_phase c.phase ≡ false → is_active_phase (f c).phase ≡ false

module _ (f : ClaimRow → ClaimRow) (keeps : Keeps f) where
  any-has_key :
      (principal key : Text) (cs : List ClaimRow)
      → any (has_key principal key) (map f cs) ≡ any (has_key principal key) cs
  any-has_key principal key [] = refl
  any-has_key principal key (c ∷ cs) =
      simp (keeps.principal c, keeps.key c, any-has_key principal key cs)

  blocks-kept :
      (principal : Text) (service : ℕ) (c : ClaimRow)
      → blocks principal service c ≡ false
      → blocks principal service (f c) ≡ false
  blocks-kept principal service c h =
      rw (keeps.principal c, keeps.service c) (ground (arith, keeps.inactive c))

  any-blocks :
      (principal : Text) (service : ℕ) (cs : List ClaimRow)
      → any (blocks principal service) cs ≡ false
      → any (blocks principal service) (map f cs) ≡ false
  any-blocks principal service [] h = refl
  any-blocks principal service (c ∷ cs) h =
      ground (arith, blocks-kept principal service c, any-blocks principal service cs)

  map-IsExclusive : (cs : List ClaimRow) → IsExclusive cs → IsExclusive (map f cs)
  unfolding IsExclusive
  map-IsExclusive [] v = tt
  map-IsExclusive (c ∷ cs) v = (
    rw (keeps.principal c, keeps.key c) (any-has_key c.principal_id c.idempotency_key cs ∙ v.0),
    λ active.
        rw (keeps.principal c, keeps.service c)
          (any-blocks c.principal_id c.service_id cs (v.1 (ground (arith, keeps.inactive c)))),
    map-IsExclusive cs v.2,
  )

-- The rows that an update touches are prepared, so they are active.
prepared_active :
    (i : LifecycleIntent) (c : ClaimRow)
    → is_prepared_claim i c ≡ true
    → is_active_phase c.phase ≡ true
prepared_active i c h = prepared_phase c.phase (ground arith)
  where
    prepared_phase : (phase : ClaimPhase) → is_prepared phase ≡ true → is_active_phase phase ≡ true
    prepared_phase phase h = ground arith

module _ (i : LifecycleIntent) (change : ClaimRow → ClaimRow)
    (principal : (c : ClaimRow) → (change c).principal_id ≡ c.principal_id)
    (key : (c : ClaimRow) → (change c).idempotency_key ≡ c.idempotency_key)
    (service : (c : ClaimRow) → (change c).service_id ≡ c.service_id) where
  update-Keeps : Keeps (λ c. if is_prepared_claim i c then change c else c)
  update-Keeps = record {
    principal = λ c. ground (arith, principal c);
    key = λ c. ground (arith, key c);
    service = λ c. ground (arith, service c);
    inactive = λ c. ground (arith, prepared_active i c);
  }

  update_claim-IsExclusive :
      (r : Registry) {r' : Registry}
      → update_claim i change r ≡ ok r'
      → IsExclusive r.claims
      → IsExclusive r'.claims
  update_claim-IsExclusive r {r'} h v =
      subst IsExclusive (sym (ap (λ (x : Registry). x.claims) (update_claim-ok i change r h).1)) (
        map-IsExclusive (λ c. if is_prepared_claim i c then change c else c) update-Keeps r.claims
          v)

append_terminal-claims :
    (i : LifecycleIntent) (outcome : AuditOutcome) (at : ℕ) (r : Registry)
    → (append_terminal i outcome at r).claims ≡ r.claims
unfolding append_terminal append
append_terminal-claims i outcome at r = refl

IsRecovered-IsExclusive :
    (p : Platform) (i : LifecycleIntent) (at : ℕ) (r : Registry) {a : Admission}
    → IsRecovered p i at r a
    → IsExclusive r.claims
    → IsExclusive (a.1).claims
IsRecovered-IsExclusive p i at r {a} h v =
    subst IsExclusive
      (sym (
        ap (λ (x : Registry). x.claims) h.final
        ∙ append_terminal-claims i audit_recovery_required at h.updated))
      (update_claim-IsExclusive i to_recovery (λ c. refl) (λ c. refl) (λ c. refl) r h.update v)

IsCompleted-IsExclusive :
    (p : Platform) (c : LifecycleCompletion) (r : Registry) {a : Admission}
    → IsCompleted p c r a
    → IsExclusive r.claims
    → IsExclusive (a.1).claims
IsCompleted-IsExclusive p c r {a} h v =
    let terminal = terminal_service c h.service in
    let i = prepared_intent c in
    subst IsExclusive
      (sym (
        ap (λ (x : Registry). x.claims) h.final
        ∙ append_terminal-claims i audit_completed (completed_at c) h.updated))
      (update_claim-IsExclusive i (to_completed terminal) (λ c. refl) (λ c. refl) (λ c. refl)
        h.saved h.update
        (subst IsExclusive
          (sym (save-ok p terminal i.expected_service_revision r h.save_done).claims_kept) v))

-- If no two claims have one key and no two active claims have one service, the same holds of the
-- registry that `finalize_completed` leaves.
pub finalize_completed-IsExclusive :
    (p : Platform) (c : LifecycleCompletion) (r : Registry) {a : Admission}
    → IsExclusive r.claims
    → finalize_completed p c r ≡ ok a
    → IsExclusive (a.1).claims
finalize_completed-IsExclusive p c r v h = elim (finalize_completed-ok p c r h) [
  | inl (_, _, e) ↦ subst (λ (x : Registry). IsExclusive x.claims) (sym e) v
  | inr (_, inl (_, moved)) ↦
      IsRecovered-IsExclusive p (prepared_intent c) (completed_at c) r moved v
  | inr (_, inr done) ↦ IsCompleted-IsExclusive p c r done v
]

kept :
    (r : Registry) {o : LifecycleRegistryOutcome} {a : Admission}
    → IsExclusive r.claims
    → (o, r) ≡ a
    → IsExclusive (a.1).claims
kept r v e = subst (λ (x : Admission). IsExclusive (x.1).claims) e v

recover_prepared-IsExclusive :
    (p : Platform) (i : LifecycleIntent) (at : ℕ) (r : Registry) (o : LifecycleRegistryOutcome)
    {a : Admission}
    → IsExclusive r.claims
    → recover_prepared p i at r o ≡ ok a
    → IsExclusive (a.1).claims
recover_prepared-IsExclusive p i at r (prepared_claim stored) v h =
    IsRecovered-IsExclusive p i at r (mark_recovery_required-ok p i at r h) v
recover_prepared-IsExclusive p i at r conflict_claim v h = kept r v (ok-injective h)
recover_prepared-IsExclusive p i at r stale_revision_outcome v h = kept r v (ok-injective h)
recover_prepared-IsExclusive p i at r unsupported_transition_outcome v h = kept r v (ok-injective h)
recover_prepared-IsExclusive p i at r operation_in_progress_outcome v h = kept r v (ok-injective h)
recover_prepared-IsExclusive p i at r (completed_claim j s) v h = kept r v (ok-injective h)
recover_prepared-IsExclusive p i at r (recovery_required_claim j) v h = kept r v (ok-injective h)

-- If no two claims have one key and no two active claims have one service, the same holds of the
-- registry that `finalize_recovery_required` leaves.
pub finalize_recovery_required-IsExclusive :
    (p : Platform) (i : LifecycleIntent) (at : ℕ) (r : Registry) {a : Admission}
    → IsExclusive r.claims
    → finalize_recovery_required p i at r ≡ ok a
    → IsExclusive (a.1).claims
unfolding finalize_recovery_required
finalize_recovery_required-IsExclusive p i at r v h =
    let (o, _, h1) = >>=-eq-ok (terminal_or_prepared p r i) _ h in
    recover_prepared-IsExclusive p i at r o v h1
