-- ===== src/Registry/Healthy.antt =====
-- A registry whose rows can be read, and a request that its constructor has built.
use aipcs_mcp.Prelude.{
  leb, Bool-cases, find, ok, ◌≡◌, subst, inl, inr, Bool, true, false, none, some, List, [], ◌∷◌,
  arith,
}
use aipcs_mcp.Manifest.{ManifestV2}
use aipcs_mcp.Platform.{Platform}
use aipcs_mcp.Lifecycle.{
  max_service_revision, kind_of, fields_of, make_materialise_command, make_evolve_command,
  lifecycle_fingerprint, LifecycleCommand, materialise_command, evolve_command, valid_fingerprint,
  LifecycleIntent,
}
use aipcs_mcp.Registry.Services.{valid_service, Service}
use aipcs_mcp.Registry.Tables.{before_nul, ClaimRow, Registry, claim_row, blocker, stored_service}
use aipcs_mcp.Registry.Claims.{is_lifecycle, decode_intent, claim_outcome, LifecycleRegistryOutcome}
use aipcs_mcp.Registry.Admit.{supported_lifecycle_state, is_relational, admission_target}
use aipcs_mcp.Registry.Exclusive.{IsExclusive}

-- The property holds of each element.
abbrev pub Each : {A : Type 0} → (A → Type 0) → List A → Type 0
Each P [] = Unit
Each P (x ∷ xs) = P x × Each P xs

pub find-Each :
    {A : Type 0} (P : A → Type 0) (q : A → Bool) (xs : List A) {x : A}
    → Each P xs
    → find q xs ≡ some x
    → P x
find-Each P q [] h e = cc
find-Each P q (y ∷ ys) {x} h e = elim (Bool-cases (q y)) [
  | inl t ↦ subst P (ground arith) h.0
  | inr f ↦ find-Each P q ys h.1 (ground arith)
]

-- A lifecycle claim is decoded, with its service if it is completed. It is not one that a purge
-- has left as a tombstone.
abbrev pub IsReadable : Platform → ClaimRow → Type 0
IsReadable p row =
    is_lifecycle row.operation_kind ≡ true
    → (i : LifecycleIntent) × (o : LifecycleRegistryOutcome) × (decode_intent p row ≡ ok i)
      × (claim_outcome p row i ≡ ok o)

-- Every row can be read, and the claims are exclusive.
pub record IsHealthy (p : Platform) (r : Registry) : Type 0 where
  pub services : Each (λ s. valid_service p s ≡ true) r.services
  pub claims : Each (IsReadable p) r.claims
  pub exclusive : IsExclusive r.claims

-- The command is what its constructor returns.
abbrev pub IsBuilt : Platform → LifecycleCommand → Type 0
IsBuilt p (materialise_command c) = make_materialise_command c ≡ ok (materialise_command c)
IsBuilt p (evolve_command c target) =
    (requested : ManifestV2) × (make_evolve_command p c requested ≡ ok (evolve_command c target))

-- A command of the constructor with texts that have no NUL, whose digest has 64 hexadecimal digits.
pub record IsRequest (p : Platform) (command : LifecycleCommand) : Type 0 where
  pub built : IsBuilt p command
  pub principal : before_nul (fields_of command).principal_id ≡ (fields_of command).principal_id
  pub created_via : before_nul (fields_of command).created_via ≡ (fields_of command).created_via
  pub key : before_nul (fields_of command).idempotency_key ≡ (fields_of command).idempotency_key
  pub digest : valid_fingerprint (lifecycle_fingerprint p command) ≡ true

-- The key of the command is new, and its service and its target pass every guard of an admission.
pub record IsAdmissible (p : Platform) (r : Registry) (command : LifecycleCommand) (s : Service)
    (target : ManifestV2) : Type 0 where
  pub fresh :
      claim_row r (fields_of command).principal_id (fields_of command).idempotency_key ≡ none
  pub found :
      stored_service p r (fields_of command).principal_id (fields_of command).service_id
      ≡ ok (some s)
  pub revision : s.service_revision ≡ (fields_of command).expected_service_revision
  pub version : s.schema_version ≡ some (fields_of command).expected_schema_version
  pub supported : supported_lifecycle_state s (kind_of command) ≡ true
  pub below : leb max_service_revision s.service_revision ≡ false
  pub free : blocker r (fields_of command).principal_id (fields_of command).service_id ≡ none
  pub wanted : admission_target s command ≡ some target
  pub relational : is_relational p s command target ≡ true
