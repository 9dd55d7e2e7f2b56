-- ===== src/Registry/PreparedRow.antt =====
-- The row of the claim that a finalization found, and how it is read after the update.
use aipcs_mcp.Prelude.{
  if◌then◌else◌, same, eq_of_same, same_self, ◌==◌, Bool-cases, if-true, find, Text-discrete,
  >>=-eq-ok, ok, ◌≡◌, refl, ap, ◌∙◌, inl, inr, Bool, true, false, ◌&&◌, Option, none, some, List,
  [], ◌∷◌, map, arith,
}
use aipcs_mcp.Platform.{LifecycleKind-discrete, Platform, IsStripping}
use aipcs_mcp.Lifecycle.{LifecyclePhase-discrete, LifecyclePhase, LifecycleIntent}
use aipcs_mcp.Registry.Services.{valid_service, Service}
use aipcs_mcp.Registry.Tables.{
  has_key, claim_row, is_prepared, is_prepared_claim, ClaimRow, Registry, at_phase,
}
use aipcs_mcp.Registry.Claims.{
  valid_terminal_service, complete_claim, decode_intent, decode_result, completed_claim,
  prepared_claim, recovery_required_claim,
}
use aipcs_mcp.Registry.Finalize.{
  terminal_or_prepared_row, terminal_or_prepared, to_recovery, to_completed,
}
use aipcs_mcp.Registry.Terminal.{demand-ok, same_intent-eq, stored_outcome-prepared}
use aipcs_mcp.Registry.Decoded.{decode_intent-IsDecoded, decode_intent-phase}

find-sat : {A : Type 0} (q : A → Bool) (xs : List A) {x : A} → find q xs ≡ some x → q x ≡ true
find-sat q [] h = cc
find-sat q (y ∷ ys) {x} h = elim (Bool-cases (q y)) [
  | inl t ↦ ground arith
  | inr f ↦ find-sat q ys (ground arith)
]

find-map :
    {A : Type 0} (q : A → Bool) (f : A → A) (xs : List A) {x : A}
    → ((y : A) → q (f y) ≡ q y)
    → find q xs ≡ some x
    → find q (map f xs) ≡ some (f x)
find-map q f [] k h = cc
find-map q f (y ∷ ys) {x} k h = elim (Bool-cases (q y)) [
  | inl t ↦ ground (arith, k y)
  | inr e ↦ ground (arith, k y, find-map q f ys {x = x} k (ground arith))
]

-- The prepared row that a finalization found.
pub record IsPreparedRow (p : Platform) (r : Registry) (i : LifecycleIntent) : Type 0 where
  pub prepared : i.phase ≡ LifecyclePhase.prepared
  pub row : ClaimRow
  pub found : claim_row r i.principal_id i.idempotency_key ≡ some row
  pub stamped : same Text-discrete row.fingerprint i.fingerprint ≡ true
  pub decoded : decode_intent p row ≡ ok i
  pub own : is_prepared_claim i row ≡ true

three_tests : (a b c : Bool) → a ≡ true → b ≡ true → c ≡ true → (a && b && c) ≡ true
three_tests a b c x y z = ground arith

and_then : (a b c : Bool) → (a && b && c) ≡ true → (a ≡ true) × (b ≡ true)
and_then a b c h = ground arith

terminal_identity :
    (i : LifecycleIntent) (s : Service)
    → valid_terminal_service (record i { phase = LifecyclePhase.completed }) s ≡ true
    → (same Text-discrete s.principal_id i.principal_id ≡ true)
      × ((s.service_id == i.service_id) ≡ true)
unfolding valid_terminal_service
terminal_identity i s h = ground arith

complete_claim-valid :
    (i : LifecycleIntent) (s : Service)
    → valid_terminal_service (record i { phase = LifecyclePhase.completed }) s ≡ true
    → complete_claim (record i { phase = LifecyclePhase.completed }) s
      ≡ ok (completed_claim (record i { phase = LifecyclePhase.completed }) s)
unfolding complete_claim
complete_claim-valid i s h = simp (same_self LifecyclePhase-discrete LifecyclePhase.completed, h)

module _ (p : Platform) (strips : IsStripping p) (r : Registry) (i : LifecycleIntent) where
  terminal_or_prepared_row-IsPreparedRow :
      (o : Option ClaimRow) {stored : LifecycleIntent}
      → claim_row r i.principal_id i.idempotency_key ≡ o
      → i.phase ≡ LifecyclePhase.prepared
      → terminal_or_prepared_row p i o ≡ ok (prepared_claim stored)
      → IsPreparedRow p r i
  terminal_or_prepared_row-IsPreparedRow none e f h = cc
  terminal_or_prepared_row-IsPreparedRow (some row) e f h =
      let (stamp, h1) = demand-ok (same Text-discrete row.fingerprint i.fingerprint) _ h in
      let (s, decoded, h2) = >>=-eq-ok (decode_intent p row) _ h1 in
      let (kind, h3) = demand-ok (same LifecycleKind-discrete s.kind i.kind) _ h2 in
      let (phase, same_one) = stored_outcome-prepared p row i s s.phase h3 in
      let (d, _) = decode_intent-IsDecoded p strips row decoded in
      record {
        prepared = f;
        row = row;
        found = e;
        stamped = stamp;
        decoded = rw (same_intent-eq s i same_one) at decoded;
        own =
            three_tests (has_key i.principal_id i.idempotency_key row)
              (same Text-discrete row.fingerprint i.fingerprint) (is_prepared row.phase)
              (find-sat (has_key i.principal_id i.idempotency_key) r.claims {x = row}
                (unfold claim_row in e))
              stamp (ap is_prepared (d.in_phase ∙ ap at_phase phase));
      }

  pub terminal_or_prepared-IsPreparedRow :
      {stored : LifecycleIntent}
      → terminal_or_prepared p r i ≡ ok (prepared_claim stored)
      → IsPreparedRow p r i
  unfolding terminal_or_prepared
  terminal_or_prepared-IsPreparedRow h =
      let (f, h1) = demand-ok (same LifecyclePhase-discrete i.phase LifecyclePhase.prepared) _ h in
      terminal_or_prepared_row-IsPreparedRow (claim_row r i.principal_id i.idempotency_key) refl
        (eq_of_same LifecyclePhase-discrete i.phase LifecyclePhase.prepared f) h1

  phase_test :
      i.phase ≡ LifecyclePhase.prepared
      → same LifecyclePhase-discrete i.phase LifecyclePhase.prepared ≡ true
  phase_test e = rw e (same_self LifecyclePhase-discrete LifecyclePhase.prepared)

  module _ (x : IsPreparedRow p r i) (r' : Registry) where
    -- The row of the claim after an update of it.
    pub changed_row :
        (change : ClaimRow → ClaimRow)
        → ((c : ClaimRow)
            → has_key i.principal_id i.idempotency_key (change c)
              ≡ has_key i.principal_id i.idempotency_key c)
        → r'.claims ≡ map (λ c. if is_prepared_claim i c then change c else c) r.claims
        → claim_row r' i.principal_id i.idempotency_key ≡ some (change x.row)
    unfolding claim_row
    changed_row change k e =
        let q = has_key i.principal_id i.idempotency_key in
        let f : ClaimRow → ClaimRow = λ c. if is_prepared_claim i c then change c else c in
        let kept : (c : ClaimRow) → q (f c) ≡ q c = λ c. kept_key c (is_prepared_claim i c) in
        rw e (
          find-map q f r.claims kept x.found
          ∙ ap some (if-true (is_prepared_claim i x.row) _ _ x.own))
      where
        kept_key :
            (c : ClaimRow) (b : Bool)
            → has_key i.principal_id i.idempotency_key (if b then change c else c)
              ≡ has_key i.principal_id i.idempotency_key c
        kept_key c true = k c
        kept_key c false = refl

    pub again_recovered :
        claim_row r' i.principal_id i.idempotency_key ≡ some (to_recovery x.row)
        → terminal_or_prepared p r' i
          ≡ ok (recovery_required_claim (record i { phase = LifecyclePhase.recovery_required }))
    unfolding terminal_or_prepared
    again_recovered e =
        let (d, _) = decode_intent-IsDecoded p strips x.row x.decoded in
        simp (
          phase_test x.prepared,
          e,
          x.stamped,
          decode_intent-phase p x.row LifecyclePhase.recovery_required x.row.result d,
          same_self LifecycleKind-discrete i.kind,
        )

    pub again_completed :
        (s : Service)
        → claim_row r' i.principal_id i.idempotency_key ≡ some (to_completed s x.row)
        → valid_service p s ≡ true
        → valid_terminal_service (record i { phase = LifecyclePhase.completed }) s ≡ true
        → terminal_or_prepared p r' i
          ≡ ok (completed_claim (record i { phase = LifecyclePhase.completed }) s)
    unfolding terminal_or_prepared decode_result
    again_completed s e v t =
        let (d, _) = decode_intent-IsDecoded p strips x.row x.decoded in
        let (owner, id) = terminal_identity i s t in
        simp (
          phase_test x.prepared,
          e,
          x.stamped,
          decode_intent-phase p x.row LifecyclePhase.completed (some s) d,
          same_self LifecycleKind-discrete i.kind,
          v,
          owner,
          id,
          complete_claim-valid i s t,
        )
