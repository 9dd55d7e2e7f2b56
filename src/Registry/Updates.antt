-- ===== src/Registry/Updates.antt =====
-- What the UPDATE statements of the unit of work do when they succeed.
use aipcs_mcp.Prelude.{
  ltb, leb, if◌then◌else◌, ◌==◌, length, keep, >>=-eq-ok, ok, err, ℕ, zero, suc, ◌+◌, ◌≡◌, refl,
  sym, ap, ◌∙◌, Bool, true, false, ◌&&◌, some, map, arith,
}
use aipcs_mcp.Platform.{Platform}
use aipcs_mcp.Lifecycle.{max_service_revision, LifecycleIntent}
use aipcs_mcp.Registry.Services.{valid_service, Service}
use aipcs_mcp.Registry.Tables.{
  Stored, is_prepared_claim, update_claim, update_live_identity, is_row_at, save_rows, save,
  ClaimRow, Registry, migration_error,
}

pub update_claim-ok :
    (i : LifecycleIntent) (change : ClaimRow → ClaimRow) (r : Registry) {r' : Registry}
    → update_claim i change r ≡ ok r'
    → (length (keep (is_prepared_claim i) r.claims) ≡ 1)
      × (r'
          ≡ record r { claims = map (λ c. if is_prepared_claim i c then change c else c) r.claims })
unfolding update_claim
update_claim-ok i change r h = ground arith

update_live_identity-ok :
    (s : Service) (r : Registry) {r' : Registry}
    → update_live_identity s r ≡ ok r'
    → (r'.claims ≡ r.claims) × (r'.services ≡ r.services)
unfolding update_live_identity
update_live_identity-ok s r h = ground arith

-- The service is valid, its row is replaced, and no claim is touched.
pub record IsSaved (p : Platform) (s : Service) (expected : ℕ) (r r' : Registry) : Type 0 where
  pub valid : valid_service p s ≡ true
  pub next : s.service_revision ≡ expected + 1
  pub replaced : r'.services ≡ map (λ row. if is_row_at s expected row then s else row) r.services
  pub claims_kept : r'.claims ≡ r.claims

save_rows-ok :
    (s : Service) (expected : ℕ) (r : Registry) (n : ℕ) {r' : Registry}
    → save_rows s expected r n ≡ ok (some r')
    → (r'.services ≡ map (λ row. if is_row_at s expected row then s else row) r.services)
      × (r'.claims ≡ r.claims)
save_rows-ok s expected r zero h = cc
save_rows-ok s expected r (suc zero) {r'} h =
    let (x, e, h1) =
      >>=-eq-ok
        (update_live_identity s (record r {
          services = map (λ row. if is_row_at s expected row then s else row) r.services;
        }))
        _ h in
    let (claims, services) = update_live_identity-ok s _ e in
    let same_result : x ≡ r' = cc in
    (
      ap (λ (y : Registry). y.services) (sym same_result) ∙ services,
      ap (λ (y : Registry). y.claims) (sym same_result) ∙ claims,
    )
save_rows-ok s expected r (suc (suc n)) h = cc

last_two : (a b c d : Bool) → (a && b && c && d) ≡ true → (c ≡ true) × (d ≡ true)
last_two a b c d h = ground arith

if-ok :
    {A : Type 0} (b : Bool) (m : Stored A) {a : A}
    → (if b then m else err migration_error) ≡ ok a
    → (b ≡ true) × (m ≡ ok a)
if-ok true m h = (refl, h)
if-ok false m h = cc

equal_numbers : (a b : ℕ) → (a == b) ≡ true → a ≡ b
equal_numbers a b h = ground arith

pub save-ok :
    (p : Platform) (s : Service) (expected : ℕ) (r : Registry) {r' : Registry}
    → save p s expected r ≡ ok (some r')
    → IsSaved p s expected r r'
unfolding save
save-ok p s expected r {r'} h =
    let rows = length (keep (is_row_at s expected) r.services) in
    let (tests, h1) =
      if-ok
        (leb 1 expected
          && ltb expected max_service_revision
          && s.service_revision == expected + 1
          && valid_service p s)
        (save_rows s expected r rows) h in
    let (next, valid) =
      last_two (leb 1 expected) (ltb expected max_service_revision)
        (s.service_revision == expected + 1) (valid_service p s) tests in
    let (services, claims) = save_rows-ok s expected r rows h1 in
    record {
      valid = valid;
      next = equal_numbers s.service_revision (expected + 1) next;
      replaced = services;
      claims_kept = claims;
    }
