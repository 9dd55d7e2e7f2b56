-- ===== src/Lifecycle/Claim.antt =====
-- `LifecycleClaim` and `LifecycleAdmission`: the phase that each status asks of its intent.
use aipcs_mcp.Prelude.{if◌then◌else◌, same, is_none, ok, err, Bool, false, Option, none, some}
use aipcs_mcp.Lifecycle.Vocabulary.{
  Checked, LifecyclePhase-discrete, LifecyclePhase, LifecycleClaimStatus, LifecycleAdmissionStatus,
  claim_invalid, admission_invalid,
}
use aipcs_mcp.Lifecycle.Intent.{LifecycleIntent}

pub record LifecycleClaim : Type 0 where
  pub status : LifecycleClaimStatus
  pub intent : Option LifecycleIntent

pub record LifecycleAdmission : Type 0 where
  pub status : LifecycleAdmissionStatus
  pub intent : LifecycleIntent

abbrev in_phase : LifecyclePhase → Option LifecycleIntent → Bool
in_phase phase none = false
in_phase phase (some i) = same LifecyclePhase-discrete i.phase phase

-- `LifecycleClaim.__post_init__`
unfoldable pub valid_claim : LifecycleClaimStatus → Option LifecycleIntent → Bool
unfolding LifecyclePhase-discrete
valid_claim LifecycleClaimStatus.new intent = is_none intent
valid_claim LifecycleClaimStatus.conflict intent = is_none intent
valid_claim LifecycleClaimStatus.replay_complete intent = in_phase LifecyclePhase.completed intent
valid_claim LifecycleClaimStatus.resume_prepared intent = in_phase LifecyclePhase.prepared intent
valid_claim LifecycleClaimStatus.recovery_required intent =
    in_phase LifecyclePhase.recovery_required intent

unfoldable pub make_claim : LifecycleClaimStatus → Option LifecycleIntent → Checked LifecycleClaim
unfolding valid_claim
make_claim status intent =
    if valid_claim status intent
    then ok (record { status = status; intent = intent })
    else err claim_invalid

-- `LifecycleAdmission.__post_init__`
unfoldable pub valid_admission : LifecycleAdmissionStatus → LifecyclePhase → Bool
unfolding LifecyclePhase-discrete
valid_admission LifecycleAdmissionStatus.prepared phase =
    same LifecyclePhase-discrete phase LifecyclePhase.prepared
valid_admission LifecycleAdmissionStatus.operation_in_progress phase =
    same LifecyclePhase-discrete phase LifecyclePhase.prepared
valid_admission LifecycleAdmissionStatus.recovery_required phase =
    same LifecyclePhase-discrete phase LifecyclePhase.recovery_required

unfoldable pub make_admission :
    LifecycleAdmissionStatus → LifecycleIntent → Checked LifecycleAdmission
unfolding valid_admission
make_admission status intent =
    if valid_admission status intent.phase
    then ok (record { status = status; intent = intent })
    else err admission_invalid
