-- ===== src/Registry/Tables/Rows.antt =====
-- The rows of the tables that the lifecycle operations use, and the CHECKs of the claim table.
use aipcs_mcp.Prelude.{
  leb, if◌then◌else◌, ◌==◌, is_none, length, all, Text, Result, ℕ, Bool, true, false, not, ◌&&◌,
  Option, none, some, List, [], ◌∷◌,
}
use aipcs_mcp.Manifest.{ManifestV2}
use aipcs_mcp.Platform.{is_hex, LifecycleKind}
use aipcs_mcp.Lifecycle.{LifecyclePhase}
use aipcs_mcp.Registry.Services.{Service, StorageBackend}

-- storage/errors.py. `_bounded_uow` turns every other exception of a repository method into
-- `migration_error`.
pub data StorageError : Type 0 where
  busy_error unavailable_error migration_error : StorageError

abbrev pub Stored : Type 0 → Type 0
Stored A = Result StorageError A

pub data AuthorityKind : Type 0 where
  suspend resume archive restore export import purge : AuthorityKind

pub data OperationKind : Type 0 where
  legacy seed design : OperationKind
  lifecycle : LifecycleKind → OperationKind
  authority : AuthorityKind → OperationKind

pub data ClaimPhase : Type 0 where
  at_phase : LifecyclePhase → ClaimPhase
  tombstoned : ClaimPhase

-- The JSON document of an intent.
pub record IntentDocument : Type 0 where
  pub kind : LifecycleKind
  pub principal : Text
  pub created_via : Text
  pub service_id : ℕ
  pub expected_service_revision : ℕ
  pub expected_schema_version : ℕ
  pub target_manifest : ManifestV2

-- A row of `aipcs_registry_claim`.
pub record ClaimRow : Type 0 where
  pub principal_id : Text
  pub idempotency_key : Text
  pub fingerprint : Text
  pub service_id : ℕ
  pub operation_kind : OperationKind
  pub phase : ClaimPhase
  pub intent : Option IntentDocument
  pub result : Option Service

pub data AuditOutcome : Type 0 where
  audit_completed audit_recovery_required : AuditOutcome

pub record AuditEvent : Type 0 where
  pub action : LifecycleKind
  pub outcome : AuditOutcome
  pub service_id : ℕ
  pub principal_id : Text
  pub created_via : Text
  pub at : ℕ

-- A row of `aipcs_registry_identity`.
pub record IdentityRow : Type 0 where
  pub service_id : ℕ
  pub principal_id : Text
  pub domain_name : Text
  pub storage_backend : Option StorageBackend
  pub live : Bool

-- The audit rows are newest first.
pub record Registry : Type 0 where
  pub services : List Service
  pub claims : List ClaimRow
  pub audits : List AuditEvent
  pub identities : List IdentityRow

unfoldable pub OperationKind-discrete : Discrete OperationKind
OperationKind-discrete = hlevel

-- `phase IN ('prepared','recovery_required')`
abbrev pub is_active_phase : ClaimPhase → Bool
is_active_phase (at_phase LifecyclePhase.prepared) = true
is_active_phase (at_phase LifecyclePhase.recovery_required) = true
is_active_phase _ = false

-- The part of a text that SQLite's `length` and `GLOB` read.
abbrev pub before_nul : Text → Text
before_nul [] = []
before_nul (c ∷ t) = let rest = before_nul t in if c == 0 then [] else c ∷ rest

-- `length(t) BETWEEN 1 AND maximum`
abbrev pub column_length : Text → ℕ → Bool
column_length t maximum = leb 1 (length (before_nul t)) && leb (length (before_nul t)) maximum

-- `NOT IN ('legacy', 'seed', 'design')`
abbrev is_prepared_kind : OperationKind → Bool
is_prepared_kind legacy = false
is_prepared_kind seed = false
is_prepared_kind design = false
is_prepared_kind _ = true

abbrev is_purge : OperationKind → Bool
is_purge (authority purge) = true
is_purge _ = false

-- The CHECK of the table on the phase, the kind and the columns that may be NULL. The column
-- `recovery_category` says no more than the phase.
abbrev valid_columns : ClaimPhase → OperationKind → Bool → Bool → Bool
valid_columns tombstoned kind has_intent has_result =
    not (is_purge kind) && not has_intent && not has_result
valid_columns (at_phase LifecyclePhase.completed) kind has_intent has_result =
    (if is_prepared_kind kind then has_intent else not has_intent) && has_result
valid_columns (at_phase LifecyclePhase.prepared) kind has_intent has_result =
    is_prepared_kind kind && has_intent && not has_result
valid_columns (at_phase LifecyclePhase.recovery_required) kind has_intent has_result =
    is_prepared_kind kind && has_intent && not has_result

-- The column `created_via` is the one of the intent.
abbrev valid_created_via : Option IntentDocument → Bool
valid_created_via none = true
valid_created_via (some d) = column_length d.created_via 64

-- The CHECK constraints of `aipcs_registry_claim`.
unfoldable pub valid_claim_row : ClaimRow → Bool
valid_claim_row c =
    column_length c.principal_id 128
    && column_length c.idempotency_key 128
    && length (before_nul c.fingerprint) == 64
    && all is_hex (before_nul c.fingerprint)
    && not (c.service_id == 0)
    && valid_created_via c.intent
    && valid_columns c.phase c.operation_kind (not (is_none c.intent)) (not (is_none c.result))
