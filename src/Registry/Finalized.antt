-- ===== src/Registry/Finalized.antt =====
-- What `finalize_completed` and `finalize_recovery_required` do to the registry.
use aipcs_mcp.Prelude.{
  leb, leb→le, >>=-eq-ok, ok-injective, ok, ℕ, ◌≤◌, ◌≡◌, refl, sym, ap, ◌∙◌, subst, ◌⊎◌, inl, inr,
  Bool, true, false, Option, none, some,
}
use aipcs_mcp.Platform.{Platform}
use aipcs_mcp.Lifecycle.{LifecyclePhase, with_phase, LifecycleIntent}
use aipcs_mcp.Registry.Services.{Service}
use aipcs_mcp.Registry.Tables.{
  stored_service, update_claim, save, Registry, audit_completed, audit_recovery_required,
}
use aipcs_mcp.Registry.Claims.{
  bounded, valid_terminal_service, complete_claim, LifecycleRegistryOutcome, completed_claim,
  prepared_claim, recovery_required_claim,
}
use aipcs_mcp.Registry.Terminal.{
  IsTerminal, demand-ok, complete_claim-ok, terminal_or_prepared-cases,
}
use aipcs_mcp.Registry.Admit.{Admission}
use aipcs_mcp.Registry.Admitted.{bounded-ok}
use aipcs_mcp.Registry.Completion.{
  prepared_intent, completed_at, finalization_preconditions, terminal_service, LifecycleCompletion,
}
use aipcs_mcp.Registry.Finalize.{
  terminal_or_prepared, append_terminal, to_recovery, to_completed, mark_recovery_required,
  complete_saved, after_save, finalize_checked, finalize_service, finalize_prepared,
  finalize_completed,
}

-- The claim was moved to recovery, and nothing but the claims and the audit rows was changed.
pub record IsRecovered (p : Platform) (i : LifecycleIntent) (at : ℕ) (r : Registry) (a : Admission)
    : Type 0 where
  pub intent : LifecycleIntent
  pub moved : with_phase p i LifecyclePhase.recovery_required ≡ ok intent
  pub outcome : a.0 ≡ recovery_required_claim intent
  pub updated : Registry
  pub update : update_claim i to_recovery r ≡ ok updated
  pub final : a.1 ≡ append_terminal i audit_recovery_required at updated

-- The service met the preconditions and was replaced by its terminal version, and the claim keeps
-- that version.
pub record IsCompleted (p : Platform) (c : LifecycleCompletion) (r : Registry) (a : Admission)
    : Type 0 where
  pub service : Service
  pub found :
      stored_service p r (prepared_intent c).principal_id (prepared_intent c).service_id
      ≡ ok (some service)
  pub in_time : service.updated_at ≤ completed_at c
  pub meets : finalization_preconditions c service ≡ true
  pub saved : Registry
  pub save_done :
      save p (terminal_service c service) (prepared_intent c).expected_service_revision r
      ≡ ok (some saved)
  pub intent : LifecycleIntent
  pub moved : with_phase p (prepared_intent c) LifecyclePhase.completed ≡ ok intent
  pub terminal : valid_terminal_service intent (terminal_service c service) ≡ true
  pub outcome : a.0 ≡ completed_claim intent (terminal_service c service)
  pub updated : Registry
  pub update :
      update_claim (prepared_intent c) (to_completed (terminal_service c service)) saved
      ≡ ok updated
  pub final : a.1 ≡ append_terminal (prepared_intent c) audit_completed (completed_at c) updated

pub mark_recovery_required-ok :
    (p : Platform) (i : LifecycleIntent) (at : ℕ) (r : Registry) {a : Admission}
    → mark_recovery_required p i at r ≡ ok a
    → IsRecovered p i at r a
unfolding mark_recovery_required
mark_recovery_required-ok p i at r h =
    let (r', update, h1) = >>=-eq-ok (update_claim i to_recovery r) _ h in
    let (intent, moved, h2) =
      >>=-eq-ok (bounded (with_phase p i LifecyclePhase.recovery_required)) _ h1 in
    subst (IsRecovered p i at r) (ok-injective h2) (record {
      intent = intent;
      moved = bounded-ok (with_phase p i LifecyclePhase.recovery_required) moved;
      outcome = refl;
      updated = r';
      update = update;
      final = refl;
    })

module _ (p : Platform) (c : LifecycleCompletion) (r : Registry) where
  -- The service cannot be completed: it is missing, or does not meet the preconditions, or its row
  -- is no longer the one with the expected revision.
  abbrev pub IsUnfit : Type 0
  IsUnfit =
      (stored_service p r (prepared_intent c).principal_id (prepared_intent c).service_id ≡ ok none)
      ⊎ ((s : Service) × (stored_service p r (prepared_intent c).principal_id
              (prepared_intent c).service_id
            ≡ ok (some s))
          × ((finalization_preconditions c s ≡ false)
              ⊎ (save p (terminal_service c s) (prepared_intent c).expected_service_revision r
                  ≡ ok none)))

  abbrev pub Finalized : Admission → Type 0
  Finalized a =
      (IsUnfit × IsRecovered p (prepared_intent c) (completed_at c) r a) ⊎ IsCompleted p c r a

  saved-ok :
      (s : Service) {a : Admission} (saved : Option Registry)
      → stored_service p r (prepared_intent c).principal_id (prepared_intent c).service_id
        ≡ ok (some s)
      → s.updated_at ≤ completed_at c
      → finalization_preconditions c s ≡ true
      → save p (terminal_service c s) (prepared_intent c).expected_service_revision r ≡ ok saved
      → after_save p c (terminal_service c s) r saved ≡ ok a
      → Finalized a
  unfolding complete_saved
  saved-ok s none found in_time meets save_done h = inl (
    inr (s, found, inr save_done),
    mark_recovery_required-ok p (prepared_intent c) (completed_at c) r h,
  )
  saved-ok s (some saved) found in_time meets save_done h =
      let i = prepared_intent c in
      let terminal = terminal_service c s in
      let (intent, moved, h1) = >>=-eq-ok (bounded (with_phase p i LifecyclePhase.completed)) _ h in
      let (r', update, h2) = >>=-eq-ok (update_claim i (to_completed terminal) saved) _ h1 in
      let (o, claimed, h3) = >>=-eq-ok (complete_claim intent terminal) _ h2 in
      let (_, valid, outcome) = complete_claim-ok intent terminal claimed in
      subst Finalized (ok-injective h3) (
        inr (record {
          service = s;
          found = found;
          in_time = in_time;
          meets = meets;
          saved = saved;
          save_done = save_done;
          intent = intent;
          moved = bounded-ok (with_phase p i LifecyclePhase.completed) moved;
          terminal = valid;
          outcome = outcome;
          updated = r';
          update = update;
          final = refl;
        }))

  finalize_checked-ok :
      (s : Service) {a : Admission} (b : Bool)
      → stored_service p r (prepared_intent c).principal_id (prepared_intent c).service_id
        ≡ ok (some s)
      → s.updated_at ≤ completed_at c
      → finalization_preconditions c s ≡ b
      → finalize_checked p c r s b ≡ ok a
      → Finalized a
  finalize_checked-ok s false found in_time meets h = inl (
    inr (s, found, inl meets),
    mark_recovery_required-ok p (prepared_intent c) (completed_at c) r h,
  )
  finalize_checked-ok s true found in_time meets h =
      let (saved, save_done, h1) =
        >>=-eq-ok (save p (terminal_service c s) (prepared_intent c).expected_service_revision r) _
          h in
      saved-ok s saved found in_time meets save_done h1

  pub finalize_service-ok :
      (s : Option Service) {a : Admission}
      → stored_service p r (prepared_intent c).principal_id (prepared_intent c).service_id ≡ ok s
      → finalize_service p c r s ≡ ok a
      → Finalized a
  finalize_service-ok none found h =
      inl (inl found, mark_recovery_required-ok p (prepared_intent c) (completed_at c) r h)
  finalize_service-ok (some s) found h =
      let (in_time, h1) = demand-ok (leb s.updated_at (completed_at c)) _ h in
      finalize_checked-ok s (finalization_preconditions c s) found
        (leb→le s.updated_at (completed_at c) in_time) refl h1

  finalize_prepared-ok :
      (o : LifecycleRegistryOutcome) {a : Admission}
      → o ≡ prepared_claim (prepared_intent c)
      → finalize_prepared p c r o ≡ ok a
      → Finalized a
  finalize_prepared-ok o {a} e h =
      let i = prepared_intent c in
      let h0 = subst (λ x. finalize_prepared p c r x ≡ ok a) e h in
      let (s, found, h1) = >>=-eq-ok (stored_service p r i.principal_id i.service_id) _ h0 in
      finalize_service-ok s found h1

  finalize_prepared-terminal :
      (o : LifecycleRegistryOutcome) {a : Admission}
      → IsTerminal o
      → finalize_prepared p c r o ≡ ok a
      → a ≡ (o, r)
  finalize_prepared-terminal o {a} (inl (i, s, e, _, _)) h =
      sym (ok-injective (subst (λ x. finalize_prepared p c r x ≡ ok a) e h))
      ∙ ap (λ x. (x, r)) (sym e)
  finalize_prepared-terminal o {a} (inr (i, e, _)) h =
      sym (ok-injective (subst (λ x. finalize_prepared p c r x ≡ ok a) e h))
      ∙ ap (λ x. (x, r)) (sym e)

  pub finalize_completed-ok :
      {a : Admission}
      → finalize_completed p c r ≡ ok a
      → (IsTerminal (a.0) × (terminal_or_prepared p r (prepared_intent c) ≡ ok (a.0)) × (a.1 ≡ r))
        ⊎ ((terminal_or_prepared p r (prepared_intent c) ≡ ok (prepared_claim (prepared_intent c)))
            × ((IsUnfit × IsRecovered p (prepared_intent c) (completed_at c) r a)
                ⊎ IsCompleted p c r a))
  unfolding finalize_completed
  finalize_completed-ok {a} h =
      let (o, existing, h1) = >>=-eq-ok (terminal_or_prepared p r (prepared_intent c)) _ h in
      elim (terminal_or_prepared-cases p r (prepared_intent c) existing) [
        | inl t ↦
            let e = finalize_prepared-terminal o t h1 in
            let e0 = ap (λ (x : Admission). x.0) e in
            inl (
              subst IsTerminal (sym e0) t,
              existing ∙ ap ok (sym e0),
              ap (λ (x : Admission). x.1) e,
            )
        | inr e ↦ inr (existing ∙ ap ok e, finalize_prepared-ok o e h1)
      ]
