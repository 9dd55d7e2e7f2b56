-- ===== src/Registry/Tables.antt =====
-- The tables that the lifecycle operations read and write, and their statements.
mod Rows
unfoldable pub use Rows.*
use aipcs_mcp.Prelude.{
  ltb, leb, if◌then◌else◌, same, ◌==◌, length, any, keep, find, Text, Text-discrete, ◌>>=◌, ◌>>◌,
  ok, err, ℕ, zero, suc, ◌+◌, Bool, true, false, not, ◌&&◌, ◌||◌, Option, none, some, List, [], ◌∷◌,
  map,
}
use aipcs_mcp.Platform.{Platform}
use aipcs_mcp.Lifecycle.{max_service_revision, LifecyclePhase, LifecycleIntent}
use aipcs_mcp.Registry.Services.{valid_service, MaterialisationStorage, Service, StorageBackend}

abbrev pub has_key : Text → Text → ClaimRow → Bool
has_key principal key c =
    same Text-discrete c.principal_id principal && same Text-discrete c.idempotency_key key

abbrev pub blocks : Text → ℕ → ClaimRow → Bool
blocks principal service c =
    same Text-discrete c.principal_id principal
    && c.service_id == service
    && is_active_phase c.phase

abbrev pub has_identity : Text → ℕ → Service → Bool
has_identity principal id s = same Text-discrete s.principal_id principal && s.service_id == id

-- `_claim_row`
unfoldable pub claim_row : Registry → Text → Text → Option ClaimRow
unfolding Text-discrete
claim_row r principal key = find (has_key principal key) r.claims

-- `SELECT ... LIMIT 1` of the active claims of a service.
unfoldable pub blocker : Registry → Text → ℕ → Option ClaimRow
unfolding Text-discrete
blocker r principal service = find (blocks principal service) r.claims

-- `decode_service` and `_service`
unfoldable pub stored_service : Platform → Registry → Text → ℕ → Stored (Option Service)
unfolding valid_service Text-discrete
stored_service p r principal id = elim (find (has_identity principal id) r.services) [
  | none ↦ ok none
  | some s ↦ if valid_service p s then ok (some s) else err migration_error
]

-- `INSERT INTO aipcs_registry_claim`, with the constraints of the table: its CHECKs, its primary key
-- and the unique index on the active claims of a service.
unfoldable pub insert_claim : ClaimRow → Registry → Stored Registry
unfolding Text-discrete valid_claim_row
insert_claim c r =
    if not (valid_claim_row c)
      || any (has_key c.principal_id c.idempotency_key) r.claims
      || is_active_phase c.phase && any (blocks c.principal_id c.service_id) r.claims
    then err migration_error
    else ok (record r { claims = c ∷ r.claims })

-- The rows of the principal beyond the first `n`, which are older, are deleted.
abbrev keep_newest : Text → ℕ → List AuditEvent → List AuditEvent
keep_newest principal n [] = []
keep_newest principal zero (a ∷ older) =
    let rest = keep_newest principal zero older in
    if same Text-discrete a.principal_id principal then rest else a ∷ rest
keep_newest principal (suc n) (a ∷ older) =
    if same Text-discrete a.principal_id principal
    then a ∷ keep_newest principal n older
    else a ∷ keep_newest principal (suc n) older

-- `append`
unfoldable pub append : AuditEvent → Registry → Registry
unfolding Text-discrete
append event r = record r { audits = keep_newest event.principal_id 1000 (event ∷ r.audits) }

abbrev pub is_prepared : ClaimPhase → Bool
is_prepared (at_phase LifecyclePhase.prepared) = true
is_prepared _ = false

-- The rows that an UPDATE of a prepared claim touches.
abbrev pub is_prepared_claim : LifecycleIntent → ClaimRow → Bool
is_prepared_claim i c =
    has_key i.principal_id i.idempotency_key c
    && same Text-discrete c.fingerprint i.fingerprint
    && is_prepared c.phase

-- The two `UPDATE aipcs_registry_claim SET ... WHERE ... phase = 'prepared'`, of
-- `_mark_recovery_required` and of `finalize_completed`; the caller raises unless one row was
-- touched. An active row keeps its key and its service, so no constraint is tested again.
unfoldable pub update_claim : LifecycleIntent → (ClaimRow → ClaimRow) → Registry → Stored Registry
unfolding Text-discrete
update_claim i change r =
    if length (keep (is_prepared_claim i) r.claims) == 1
    then ok
        (record r { claims = map (λ c. if is_prepared_claim i c then change c else c) r.claims })
    else err migration_error

abbrev pub is_live_identity : Service → IdentityRow → Bool
is_live_identity s x =
    x.live && x.service_id == s.service_id && same Text-discrete x.principal_id s.principal_id

abbrev backend_of : Option MaterialisationStorage → Option StorageBackend
backend_of none = none
backend_of (some s) = some s.backend

abbrev pub relocated : Service → IdentityRow → IdentityRow
relocated s x = record x { domain_name = s.domain_name; storage_backend = backend_of s.storage }

-- `_update_live_identity`, after an update of the service's row.
unfoldable pub update_live_identity : Service → Registry → Stored Registry
unfolding Text-discrete
update_live_identity s r =
    if length (keep (is_live_identity s) r.identities) == 1
    then ok (record r {
      identities = map (λ x. if is_live_identity s x then relocated s x else x) r.identities;
    })
    else err migration_error

abbrev pub is_row_at : Service → ℕ → Service → Bool
is_row_at s revision row =
    has_identity s.principal_id s.service_id row && row.service_revision == revision

-- What the number of updated rows means.
abbrev pub save_rows : Service → ℕ → Registry → ℕ → Stored (Option Registry)
save_rows s expected r zero = ok none
save_rows s expected r (suc zero) = do
  r' ←
      update_live_identity s (record r {
        services = map (λ row. if is_row_at s expected row then s else row) r.services;
      })
  ok (some r')
save_rows s expected r (suc (suc n)) = err migration_error

-- `save`; `none` stands for `stale_revision`. A caller keeps the domain name of the row, so the
-- unique index on it is never violated.
unfoldable pub save : Platform → Service → ℕ → Registry → Stored (Option Registry)
unfolding Text-discrete valid_service update_live_identity
save p s expected r =
    if leb 1 expected
      && ltb expected max_service_revision
      && s.service_revision == expected + 1
      && valid_service p s
    then save_rows s expected r (length (keep (is_row_at s expected) r.services))
    else err migration_error
