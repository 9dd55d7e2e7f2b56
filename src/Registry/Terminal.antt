-- ===== src/Registry/Terminal.antt =====
-- What `_terminal_or_prepared` says of the claim that it finds.
use aipcs_mcp.Prelude.{
  same, eq_of_same, Text-discrete, ◌>>◌, >>=-eq-ok, ok-injective, ok, ◌≡◌, refl, sym, ap, ◌∙◌, ◌⊎◌,
  inl, inr, Bool, true, false, ◌&&◌, Option, none, some, arith,
}
use aipcs_mcp.Manifest.{ManifestV2-discrete}
use aipcs_mcp.Platform.{LifecycleKind-discrete, Platform}
use aipcs_mcp.Lifecycle.{
  LifecyclePhase-discrete, LifecyclePhase, CommandFields-discrete, LifecycleIntent,
}
use aipcs_mcp.Registry.Services.{Service}
use aipcs_mcp.Registry.Tables.{Stored, claim_row, ClaimRow, Registry}
use aipcs_mcp.Registry.Claims.{
  demand, valid_terminal_service, complete_claim, decode_intent, decode_result,
  LifecycleRegistryOutcome, completed_claim, prepared_claim, recovery_required_claim,
}
use aipcs_mcp.Registry.Finalize.{
  same_intent, stored_outcome, terminal_or_prepared_row, terminal_or_prepared,
}

-- A claim that is completed with a service that passes every check on terminal services, or that
-- needs recovery.
abbrev pub IsTerminal : LifecycleRegistryOutcome → Type 0
IsTerminal o =
    ((i : LifecycleIntent) × (s : Service) × (o ≡ completed_claim i s)
      × (i.phase ≡ LifecyclePhase.completed)
      × (valid_terminal_service i s ≡ true))
    ⊎ ((i : LifecycleIntent) × (o ≡ recovery_required_claim i)
        × (i.phase ≡ LifecyclePhase.recovery_required))

pub demand-ok :
    {B : Type 0} (b : Bool) (m : Stored B) {x : B}
    → (demand b >> m) ≡ ok x
    → (b ≡ true) × (m ≡ ok x)
demand-ok true m h = (refl, h)
demand-ok false m h = cc

pub complete_claim-ok :
    (i : LifecycleIntent) (s : Service) {o : LifecycleRegistryOutcome}
    → complete_claim i s ≡ ok o
    → (i.phase ≡ LifecyclePhase.completed)
      × (valid_terminal_service i s ≡ true)
      × (o ≡ completed_claim i s)
unfolding complete_claim
complete_claim-ok i s h =
    let (phase, h1) =
      demand-ok (same LifecyclePhase-discrete i.phase LifecyclePhase.completed) _ h in
    let (valid, h2) = demand-ok (valid_terminal_service i s) _ h1 in
    (
      eq_of_same LifecyclePhase-discrete i.phase LifecyclePhase.completed phase,
      valid,
      sym (ok-injective h2),
    )

five_tests :
    (a b c d e : Bool)
    → (a && b && c && d && e) ≡ true
    → (a ≡ true) × (b ≡ true) × (c ≡ true) × (d ≡ true) × (e ≡ true)
five_tests a b c d e h = ground arith

pub same_intent-eq : (a b : LifecycleIntent) → same_intent a b ≡ true → a ≡ b
unfolding same_intent
same_intent-eq a b h =
    let (k, ph, c, s, m) =
      five_tests (same LifecycleKind-discrete a.kind b.kind)
        (same LifecyclePhase-discrete a.phase b.phase)
        (same CommandFields-discrete a.fields b.fields)
        (same Text-discrete a.fingerprint b.fingerprint)
        (same ManifestV2-discrete a.target_manifest b.target_manifest) h in
    let k' = eq_of_same LifecycleKind-discrete a.kind b.kind k in
    let ph' = eq_of_same LifecyclePhase-discrete a.phase b.phase ph in
    let c' = eq_of_same CommandFields-discrete a.fields b.fields c in
    let s' = eq_of_same Text-discrete a.fingerprint b.fingerprint s in
    let m' = eq_of_same ManifestV2-discrete a.target_manifest b.target_manifest m in cc

pub stored_outcome-prepared :
    (p : Platform) (row : ClaimRow) (i s : LifecycleIntent) (phase : LifecyclePhase)
    {x : LifecycleIntent}
    → stored_outcome p row i s phase ≡ ok (prepared_claim x)
    → (phase ≡ LifecyclePhase.prepared) × (same_intent s i ≡ true)
stored_outcome-prepared p row i s LifecyclePhase.prepared h =
    (refl, (demand-ok (same_intent s i) _ h).0)
stored_outcome-prepared p row i s LifecyclePhase.recovery_required h = cc
stored_outcome-prepared p row i s LifecyclePhase.completed h =
    let (x, _, h1) = >>=-eq-ok (decode_result p row i.principal_id i.service_id) _ h in
    let (_, _, e) = complete_claim-ok s x h1 in cc

stored_outcome-cases :
    (p : Platform) (row : ClaimRow) (i s : LifecycleIntent) (phase : LifecyclePhase)
    {o : LifecycleRegistryOutcome}
    → s.phase ≡ phase
    → stored_outcome p row i s phase ≡ ok o
    → IsTerminal o ⊎ (o ≡ prepared_claim i)
stored_outcome-cases p row i s LifecyclePhase.prepared e h =
    let (one, h1) = demand-ok (same_intent s i) _ h in
    inr (sym (ok-injective h1) ∙ ap prepared_claim (same_intent-eq s i one))
stored_outcome-cases p row i s LifecyclePhase.recovery_required e h =
    inl (inr (s, sym (ok-injective h), e))
stored_outcome-cases p row i s LifecyclePhase.completed e h =
    let (x, _, h1) = >>=-eq-ok (decode_result p row i.principal_id i.service_id) _ h in
    let (phase, valid, done) = complete_claim-ok s x h1 in inl (inl (s, x, done, phase, valid))

terminal_or_prepared_row-cases :
    (p : Platform) (i : LifecycleIntent) (row : Option ClaimRow) {o : LifecycleRegistryOutcome}
    → terminal_or_prepared_row p i row ≡ ok o
    → IsTerminal o ⊎ (o ≡ prepared_claim i)
terminal_or_prepared_row-cases p i none h = cc
terminal_or_prepared_row-cases p i (some row) h =
    let (_, h1) = demand-ok (same Text-discrete row.fingerprint i.fingerprint) _ h in
    let (s, _, h2) = >>=-eq-ok (decode_intent p row) _ h1 in
    let (_, h3) = demand-ok (same LifecycleKind-discrete s.kind i.kind) _ h2 in
    stored_outcome-cases p row i s s.phase refl h3

-- The claim is terminal, or it is the prepared one that the caller has.
pub terminal_or_prepared-cases :
    (p : Platform) (r : Registry) (i : LifecycleIntent) {o : LifecycleRegistryOutcome}
    → terminal_or_prepared p r i ≡ ok o
    → IsTerminal o ⊎ (o ≡ prepared_claim i)
unfolding terminal_or_prepared
terminal_or_prepared-cases p r i h =
    let (_, h1) = demand-ok (same LifecyclePhase-discrete i.phase LifecyclePhase.prepared) _ h in
    terminal_or_prepared_row-cases p i (claim_row r i.principal_id i.idempotency_key) h1
