-- ===== src/Registry/Decoded.antt =====
-- What a stored claim that is read as an intent holds, and how a change of its phase is read.
use aipcs_mcp.Prelude.{
  same, eq_of_same, ◌==◌, Text-discrete, >>=-eq-ok, ok-injective, ok, ℕ, ◌≡◌, refl, sym, ap, ◌∙◌,
  subst, Bool, true, ◌&&◌, Option, none, some, arith,
}
use aipcs_mcp.Manifest.{ManifestV2}
use aipcs_mcp.Platform.{Platform, IsStripping}
use aipcs_mcp.Lifecycle.{LifecyclePhase, manifest_snapshot, make_intent, LifecycleIntent}
use aipcs_mcp.Lifecycle.Intents.{make_intent-phase, make_intent-IsIntent, IsIntent}
use aipcs_mcp.Registry.Services.{Service}
use aipcs_mcp.Registry.Tables.{
  OperationKind-discrete, IntentDocument, ClaimRow, lifecycle, ClaimPhase, at_phase, tombstoned,
}
use aipcs_mcp.Registry.Claims.{bounded, document_fields, is_lifecycle, decode_at, decode_intent}
use aipcs_mcp.Registry.Admitted.{bounded-ok}
use aipcs_mcp.Registry.Replay.{decode_at-ok}
use aipcs_mcp.Registry.Terminal.{demand-ok}

pub record IsDecoded (p : Platform) (row : ClaimRow) (i : LifecycleIntent) : Type 0 where
  pub lifecycle_row : is_lifecycle row.operation_kind ≡ true
  pub document : IntentDocument
  pub stored : row.intent ≡ some document
  pub in_phase : row.phase ≡ at_phase i.phase
  pub target : ManifestV2
  pub snapshot : manifest_snapshot p document.target_manifest ≡ ok target
  pub made :
      make_intent p document.kind i.phase
        (document_fields document row.idempotency_key)
        row.fingerprint
        target
      ≡ ok i
  pub principal : i.principal_id ≡ row.principal_id
  pub service : i.service_id ≡ row.service_id
  pub kind : lifecycle i.kind ≡ row.operation_kind

last_of_three : (a b c : Bool) → (a && b && c) ≡ true → (a ≡ true) × (b ≡ true) × (c ≡ true)
last_of_three a b c h = ground arith

same_number : (a b : ℕ) → (a == b) ≡ true → a ≡ b
same_number a b h = ground arith

module _ (p : Platform) (strips : IsStripping p) (row : ClaimRow) where
  decode_at-IsDecoded :
      (phase : ClaimPhase) (document : Option IntentDocument) {i : LifecycleIntent}
      → is_lifecycle row.operation_kind ≡ true
      → row.phase ≡ phase
      → row.intent ≡ document
      → decode_at p row phase document ≡ ok i
      → IsDecoded p row i × IsIntent p i
  decode_at-IsDecoded tombstoned document k e1 e2 h = cc
  decode_at-IsDecoded (at_phase phase) none k e1 e2 h = cc
  decode_at-IsDecoded (at_phase phase) (some d) k e1 e2 h =
      let (target, snapshot, h1) =
        >>=-eq-ok (bounded (manifest_snapshot p d.target_manifest)) _ h in
      let fields = document_fields d row.idempotency_key in
      let (i, made, h2) =
        >>=-eq-ok (bounded (make_intent p d.kind phase fields row.fingerprint target)) _ h1 in
      let (tests, h3) =
        demand-ok
          (same Text-discrete i.principal_id row.principal_id
            && i.service_id == row.service_id
            && same OperationKind-discrete (lifecycle i.kind) row.operation_kind)
          _ h2 in
      let (t1, t2, t3) =
        last_of_three (same Text-discrete i.principal_id row.principal_id)
          (i.service_id == row.service_id)
          (same OperationKind-discrete (lifecycle i.kind) row.operation_kind) tests in
      let make = bounded-ok (make_intent p d.kind phase fields row.fingerprint target) made in
      let (is_intent, from) =
        make_intent-IsIntent p strips d.kind phase fields row.fingerprint target make in
      let decoded : IsDecoded p row i = record {
        lifecycle_row = k;
        document = d;
        stored = e2;
        in_phase = e1 ∙ ap at_phase (sym from.at_phase);
        target = target;
        snapshot = bounded-ok (manifest_snapshot p d.target_manifest) snapshot;
        made = rw from.at_phase make;
        principal = eq_of_same Text-discrete i.principal_id row.principal_id t1;
        service = same_number i.service_id row.service_id t2;
        kind = eq_of_same OperationKind-discrete (lifecycle i.kind) row.operation_kind t3;
      } in
      subst (λ i. IsDecoded p row i × IsIntent p i) (ok-injective h3) (decoded, is_intent)

  pub decode_intent-IsDecoded :
      {i : LifecycleIntent} → decode_intent p row ≡ ok i → IsDecoded p row i × IsIntent p i
  unfolding decode_intent
  decode_intent-IsDecoded h =
      let (k, h1) = demand-ok (is_lifecycle row.operation_kind) _ h in
      decode_at-IsDecoded row.phase row.intent k refl refl h1

-- The row of a decoded intent, in another phase and with another result.
pub decode_intent-phase :
    (p : Platform) (row : ClaimRow) {i : LifecycleIntent} (next : LifecyclePhase)
    (result : Option Service)
    → IsDecoded p row i
    → decode_intent p (record row { phase = at_phase next; result = result })
      ≡ ok (record i { phase = next })
unfolding decode_intent
decode_intent-phase p row {i} next result h =
    let row' = record row { phase = at_phase next; result = result } in
    simp (h.lifecycle_row, h.stored)
      (decode_at-ok p row' next h.document h.snapshot
        (make_intent-phase p h.document.kind i.phase next
          (document_fields h.document row.idempotency_key) row.fingerprint h.target h.made)
        h.principal h.service h.kind)
