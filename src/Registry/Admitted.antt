-- ===== src/Registry/Admitted.antt =====
-- What `resolve_or_admit` does to the registry.
use aipcs_mcp.Prelude.{
  leb, if◌then◌else◌, ◌==◌, >>=-eq-ok, ok-injective, ok, err, ◌≡◌, refl, sym, ap, subst, ◌⊎◌, inl,
  inr, Bool, true, false, not, ◌&&◌, Option, none, some, arith, ℕ_discrete,
}
use aipcs_mcp.Manifest.{ManifestV2}
use aipcs_mcp.Platform.{Platform}
use aipcs_mcp.Lifecycle.{
  max_service_revision, Checked, kind_of, fields_of, lifecycle_fingerprint, LifecycleCommand,
  prepare_intent, LifecycleIntent,
}
use aipcs_mcp.Registry.Services.{Service}
use aipcs_mcp.Registry.Tables.{Stored, blocker, stored_service, insert_claim, ClaimRow, Registry}
use aipcs_mcp.Registry.Claims.{
  bounded, is_some_eq, existing_lifecycle_claim, LifecycleRegistryOutcome, stale_revision_outcome,
  unsupported_transition_outcome, prepared_claim,
}
use aipcs_mcp.Registry.Admit.{
  supported_lifecycle_state, Admission, prepared_row, is_relational, admission_target,
  prepare_target, admit_target, blocked_outcome, at_blocker, admit_service, at_claim,
  resolve_or_admit,
}

-- A new claim was inserted: the one of a prepared intent of the command.
pub record IsAdmission (p : Platform) (r : Registry) (command : LifecycleCommand) (a : Admission)
    : Type 0 where
  pub intent : LifecycleIntent
  pub target : ManifestV2
  pub prepared_from : prepare_intent p command target ≡ ok intent
  pub outcome : a.0 ≡ prepared_claim intent
  pub inserted : insert_claim (prepared_row intent) r ≡ ok (a.1)

pub bounded-ok : {A : Type 0} (m : Checked A) {a : A} → bounded m ≡ ok a → m ≡ ok a
bounded-ok (ok a) h = ground arith
bounded-ok (err e) h = cc

-- The branch that a conditional took.
pub branch-of :
    {A : Type 0} (b : Bool) (x y : A) {z : A} → (if b then x else y) ≡ z → (x ≡ z) ⊎ (y ≡ z)
branch-of true x y h = inl h
branch-of false x y h = inr h

module _ (p : Platform) (r : Registry) (command : LifecycleCommand) where
  -- Nothing was changed, or a claim was admitted.
  abbrev Outcome : Admission → Type 0
  Outcome a = (a.1 ≡ r) ⊎ IsAdmission p r command a

  left_alone :
      {o : LifecycleRegistryOutcome} {a : Admission}
      → ◌≡◌ {A = Stored Admission} (ok (o, r)) (ok a)
      → Outcome a
  left_alone h = inl (ap (λ (a : Admission). a.1) (sym (ok-injective h)))

  prepare_target-ok :
      (s : Service) (target : Option ManifestV2) {a : Admission}
      → prepare_target p r s command target ≡ ok a
      → Outcome a
  prepare_target-ok s none h = cc
  prepare_target-ok s (some target) h = elim (branch-of (is_relational p s command target) _ _ h) [
    | inl h ↦
        let (i, made, h1) = >>=-eq-ok (bounded (prepare_intent p command target)) _ h in
        let (r', inserted, h2) = >>=-eq-ok (insert_claim (prepared_row i) r) _ h1 in
        subst Outcome (ok-injective h2) (
          inr (record {
            intent = i;
            target = target;
            prepared_from = bounded-ok (prepare_intent p command target) made;
            outcome = refl;
            inserted = inserted;
          }))
    | inr h ↦ left_alone h
  ]

  at_blocker-ok :
      (s : Service) (row : Option ClaimRow) {a : Admission}
      → at_blocker p r s command row ≡ ok a
      → Outcome a
  unfolding admit_target
  at_blocker-ok s none h = prepare_target-ok s (admission_target s command) h
  at_blocker-ok s (some row) h =
      let (o, _, h1) = >>=-eq-ok (blocked_outcome p row) _ h in left_alone h1

  admit_service-ok :
      (s : Option Service) {a : Admission} → admit_service p r command s ≡ ok a → Outcome a
  unfolding admit_service
  admit_service-ok none h = left_alone h
  admit_service-ok (some s) h =
      let c = fields_of command in
      let is_current =
        s.service_revision == c.expected_service_revision
        && is_some_eq ℕ_discrete s.schema_version c.expected_schema_version in
      let blocking = blocker r c.principal_id c.service_id in
      let last = leb max_service_revision s.service_revision in
      let supported = supported_lifecycle_state s (kind_of command) in
      let refused : Stored Admission = ok (unsupported_transition_outcome, r) in
      let admitted = at_blocker p r s command blocking in
      let allowed = if last then refused else admitted in
      elim (branch-of (not is_current) (ok (stale_revision_outcome, r))
        (if not supported then refused else allowed) h) [
          | inl h ↦ left_alone {o = stale_revision_outcome} h
          | inr h ↦ elim (branch-of (not supported) refused allowed h) [
            | inl h ↦ left_alone {o = unsupported_transition_outcome} h
            | inr h ↦ elim (branch-of last refused admitted h) [
              | inl h ↦ left_alone {o = unsupported_transition_outcome} h
              | inr h ↦ at_blocker-ok s blocking h
            ]
          ]
        ]

  at_claim-ok :
      (row : Option ClaimRow) {a : Admission} → at_claim p r command row ≡ ok a → Outcome a
  at_claim-ok none h =
      let c = fields_of command in
      let (s, _, h1) = >>=-eq-ok (stored_service p r c.principal_id c.service_id) _ h in
      admit_service-ok s h1
  at_claim-ok (some row) h =
      let (o, _, h1) =
        >>=-eq-ok (existing_lifecycle_claim p row command (lifecycle_fingerprint p command)) _ h in
      left_alone h1

  pub resolve_or_admit-ok :
      {a : Admission} → resolve_or_admit p r command ≡ ok a → (a.1 ≡ r) ⊎ IsAdmission p r command a
  unfolding resolve_or_admit
  resolve_or_admit-ok h = at_claim-ok _ h
