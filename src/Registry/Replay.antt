-- ===== src/Registry/Replay.antt =====
-- A repeated `resolve_or_admit`.
use aipcs_mcp.Prelude.{
  same, eq_of_same, same_self, ◌==◌, Bool-cases, Text-discrete, ok, ℕ, ◌≡◌, refl, sym, ap, ◌∙◌,
  subst, ◌≢◌, inl, inr, true, some, ◌∷◌, arith,
}
use aipcs_mcp.Manifest.{ManifestV2}
use aipcs_mcp.Platform.{Platform, IsStripping, NoCollision}
use aipcs_mcp.Lifecycle.{
  LifecyclePhase, kind_of, fields_of, manifest_snapshot, canonical_lifecycle_payload,
  lifecycle_fingerprint, LifecycleCommand, make_intent, LifecycleIntent,
}
use aipcs_mcp.Lifecycle.Intents.{make_intent_again, prepare_intent-IsIntent, IsIntent}
use aipcs_mcp.Lifecycle.Fingerprints.{with_key, with_key_self, lifecycle_fingerprint-iff-with_key}
use aipcs_mcp.Registry.Tables.{
  OperationKind-discrete, claim_row, insert_claim, is_prepared, IntentDocument, ClaimRow, Registry,
  lifecycle, at_phase,
}
use aipcs_mcp.Registry.Claims.{
  encode_intent, document_fields, decode_at, decode_intent, claim_outcome, existing_lifecycle_claim,
  LifecycleRegistryOutcome, conflict_claim, prepared_claim,
}
use aipcs_mcp.Registry.Admit.{Admission, prepared_row, resolve_or_admit}
use aipcs_mcp.Registry.Admitted.{resolve_or_admit-ok, IsAdmission}

insert_claim-ok :
    (c : ClaimRow) (r : Registry) {r' : Registry}
    → insert_claim c r ≡ ok r'
    → r' ≡ record r { claims = c ∷ r.claims }
unfolding insert_claim
insert_claim-ok c r h = ground arith

pub eq_self : (n : ℕ) → (n == n) ≡ true
eq_self n = ground arith

pub claim_outcome-prepared :
    (p : Platform) (row : ClaimRow) (i : LifecycleIntent)
    → i.phase ≡ LifecyclePhase.prepared
    → claim_outcome p row i ≡ ok (prepared_claim i)
unfolding claim_outcome
claim_outcome-prepared p row i e = rw e refl

existing_lifecycle_claim-ok :
    (p : Platform) (row : ClaimRow) (command : LifecycleCommand) {i : LifecycleIntent}
    {o : LifecycleRegistryOutcome}
    → row.fingerprint ≡ lifecycle_fingerprint p command
    → row.operation_kind ≡ lifecycle (kind_of command)
    → decode_intent p row ≡ ok i
    → claim_outcome p row i ≡ ok o
    → existing_lifecycle_claim p row command (lifecycle_fingerprint p command) ≡ ok o
unfolding existing_lifecycle_claim
existing_lifecycle_claim-ok p row command f k e1 e2 = simp (
  f,
  k,
  same_self Text-discrete (lifecycle_fingerprint p command),
  same_self OperationKind-discrete (lifecycle (kind_of command)),
  e1,
  e2,
)

-- A document whose intent passes the checks, in a row of the same identity.
pub decode_at-ok :
    (p : Platform) (row : ClaimRow) (phase : LifecyclePhase) (d : IntentDocument)
    {target : ManifestV2} {i : LifecycleIntent}
    → manifest_snapshot p d.target_manifest ≡ ok target
    → make_intent p d.kind phase (document_fields d row.idempotency_key) row.fingerprint target
      ≡ ok i
    → i.principal_id ≡ row.principal_id
    → i.service_id ≡ row.service_id
    → lifecycle i.kind ≡ row.operation_kind
    → decode_at p row (at_phase phase) (some d) ≡ ok i
decode_at-ok p row phase d e1 e2 e3 e4 e5 = simp (
  e1,
  e2,
  e3,
  e4,
  e5,
  same_self Text-discrete row.principal_id,
  eq_self row.service_id,
  same_self OperationKind-discrete row.operation_kind,
)

module _ (p : Platform) (strips : IsStripping p) (i : LifecycleIntent) (is_intent : IsIntent p i)
    (is_prepared : i.phase ≡ LifecyclePhase.prepared) where
  pub decode_intent-prepared_row : decode_intent p (prepared_row i) ≡ ok i
  unfolding decode_intent prepared_row encode_intent
  decode_intent-prepared_row =
      decode_at-ok p (prepared_row i) LifecyclePhase.prepared (encode_intent i)
        is_intent.target_detached
        (make_intent_again p strips i LifecyclePhase.prepared is_intent
          ∙ ap (λ phase. ok (record i { phase = phase })) (sym is_prepared))
        refl refl refl

  claim_row-prepared_row :
      (r : Registry)
      → claim_row (record r { claims = prepared_row i ∷ r.claims }) i.principal_id i.idempotency_key
        ≡ some (prepared_row i)
  unfolding claim_row prepared_row
  claim_row-prepared_row r =
      simp (same_self Text-discrete i.principal_id, same_self Text-discrete i.idempotency_key)

  -- The stored row of a prepared intent, read for the same command.
  existing_lifecycle_claim-prepared_row :
      (command : LifecycleCommand)
      → i.kind ≡ kind_of command
      → i.fingerprint ≡ lifecycle_fingerprint p command
      → existing_lifecycle_claim p (prepared_row i) command (lifecycle_fingerprint p command)
        ≡ ok (prepared_claim i)
  unfolding prepared_row
  existing_lifecycle_claim-prepared_row command k f =
      existing_lifecycle_claim-ok p (prepared_row i) command f (ap lifecycle k)
        decode_intent-prepared_row (claim_outcome-prepared p (prepared_row i) i is_prepared)

-- Two requests of one key whose fingerprints agree are one request.
one_request :
    (p : Platform) (a b : LifecycleCommand)
    → NoCollision p (canonical_lifecycle_payload a) (canonical_lifecycle_payload b)
    → (fields_of a).idempotency_key ≡ (fields_of b).idempotency_key
    → lifecycle_fingerprint p a ≡ lifecycle_fingerprint p b
    → a ≡ b
one_request p a b collision_free e h =
    (lifecycle_fingerprint-iff-with_key p a b collision_free).0 h
    ∙ ap (λ key. with_key key b) e
    ∙ with_key_self b

existing_lifecycle_claim-conflict :
    (p : Platform) (row : ClaimRow) (command : LifecycleCommand)
    → row.fingerprint ≢ lifecycle_fingerprint p command
    → existing_lifecycle_claim p row command (lifecycle_fingerprint p command) ≡ ok conflict_claim
unfolding existing_lifecycle_claim
existing_lifecycle_claim-conflict p row command ne =
    elim (Bool-cases (same Text-discrete row.fingerprint (lifecycle_fingerprint p command))) [
      | inl e ↦
          absurd (ne (eq_of_same Text-discrete row.fingerprint (lifecycle_fingerprint p command) e))
      | inr e ↦ simp e
    ]

module _ (p : Platform) (strips : IsStripping p) (r : Registry) (command : LifecycleCommand) where
  resolve_or_admit-claim :
      (command : LifecycleCommand) (r : Registry) {row : ClaimRow} {o : LifecycleRegistryOutcome}
      → claim_row r (fields_of command).principal_id (fields_of command).idempotency_key ≡ some row
      → existing_lifecycle_claim p row command (lifecycle_fingerprint p command) ≡ ok o
      → resolve_or_admit p r command ≡ ok (o, r)
  unfolding resolve_or_admit
  resolve_or_admit-claim command r e1 e2 = simp (e1, e2)

  -- The row that an admission leaves.
  admitted_row :
      {a : Admission} (h : IsAdmission p r command a)
      → claim_row (a.1) (fields_of command).principal_id (fields_of command).idempotency_key
        ≡ some (prepared_row h.intent)
  admitted_row {a} h =
      let (is_intent, is_prepared, _, fields, _, _) =
        prepare_intent-IsIntent p strips command h.target h.prepared_from in
      let row = some (prepared_row h.intent) in
      let inserted = insert_claim-ok (prepared_row h.intent) r h.inserted in
      subst (λ c. claim_row (a.1) c.principal_id c.idempotency_key ≡ row) fields
        (subst (λ r'. claim_row r' h.intent.principal_id h.intent.idempotency_key ≡ row)
          (sym inserted) (claim_row-prepared_row p strips h.intent is_intent is_prepared r))

  admitted_again :
      {a : Admission} → IsAdmission p r command a → resolve_or_admit p (a.1) command ≡ ok a
  admitted_again {a} h =
      let (is_intent, is_prepared, k, _, f, _) =
        prepare_intent-IsIntent p strips command h.target h.prepared_from in
      let read =
        existing_lifecycle_claim-prepared_row p strips h.intent is_intent is_prepared command k f in
      resolve_or_admit-claim command (a.1) (admitted_row h) read
      ∙ ap (λ o. ok (o, a.1)) (sym h.outcome)

  -- If the platform's removal of white space is idempotent, a call of `resolve_or_admit` that
  -- returns can be repeated on the registry that it left: it returns the same outcome, and changes
  -- nothing.
  pub resolve_or_admit-again :
      {a : Admission}
      → resolve_or_admit p r command ≡ ok a
      → resolve_or_admit p (a.1) command ≡ ok a
  resolve_or_admit-again {a} h = elim (resolve_or_admit-ok p r command h) [
    | inl e ↦ subst (λ r'. resolve_or_admit p r' command ≡ ok a) (sym e) h
    | inr admitted ↦ admitted_again admitted
  ]

  -- If the removal of white space is idempotent and the digest does not map the different payloads
  -- of the two requests to one text, any other request of the admitted principal and key is
  -- answered with a conflict, and nothing is changed.
  pub other_request-conflicts :
      (other : LifecycleCommand) {a : Admission}
      → NoCollision p (canonical_lifecycle_payload command) (canonical_lifecycle_payload other)
      → IsAdmission p r command a
      → (fields_of command).principal_id ≡ (fields_of other).principal_id
      → (fields_of command).idempotency_key ≡ (fields_of other).idempotency_key
      → command ≢ other
      → resolve_or_admit p (a.1) other ≡ ok (conflict_claim, a.1)
  unfolding prepared_row
  other_request-conflicts other {a} collision_free h e1 e2 ne =
      let (_, _, _, _, f, _) = prepare_intent-IsIntent p strips command h.target h.prepared_from in
      let row : claim_row (a.1) (fields_of other).principal_id (fields_of other).idempotency_key
          ≡ some (prepared_row h.intent) =
        rw (← e1, ← e2) (admitted_row h) in
      resolve_or_admit-claim other (a.1) row (
        existing_lifecycle_claim-conflict p (prepared_row h.intent) other
          (λ e. ne (one_request p command other collision_free e2 (sym f ∙ e))))
