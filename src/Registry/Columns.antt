-- ===== src/Registry/Columns.antt =====
-- The constraints of the claim table on a row that an admission inserts.
use aipcs_mcp.Prelude.{
  leb, ◌==◌, and-true, length, any, all, find, Text, is_stripped, is_empty, ok, ℕ, ◌≡◌, refl, Bool,
  true, false, not, ◌&&◌, none, List, [], ◌∷◌, arith,
}
use aipcs_mcp.Manifest.{ManifestV2}
use aipcs_mcp.Platform.{is_hex, Platform}
use aipcs_mcp.Lifecycle.{
  fields_of, valid_text, validate_common_fields, lifecycle_fingerprint, CommandFields,
  LifecycleCommand, valid_fingerprint,
}
use aipcs_mcp.Registry.Tables.{
  before_nul, column_length, valid_claim_row, ClaimRow, Registry, has_key, blocks, claim_row,
  blocker, insert_claim,
}
use aipcs_mcp.Registry.Claims.{encode_intent}
use aipcs_mcp.Registry.Admit.{prepared_row}
use aipcs_mcp.Registry.Healthy.{IsRequest}
use aipcs_mcp.Registry.Preparable.{intent_of, IsPreparable}

pub any-find : {A : Type 0} (q : A → Bool) (xs : List A) → find q xs ≡ none → any q xs ≡ false
any-find q [] h = refl
any-find q (x ∷ xs) h = ground (arith, any-find q xs)

pub insert_claim-free :
    (c : ClaimRow) (r : Registry)
    → valid_claim_row c ≡ true
    → claim_row r c.principal_id c.idempotency_key ≡ none
    → blocker r c.principal_id c.service_id ≡ none
    → insert_claim c r ≡ ok (record r { claims = c ∷ r.claims })
unfolding insert_claim claim_row blocker
insert_claim-free c r v e1 e2 = ground (
  arith,
  any-find (has_key c.principal_id c.idempotency_key) r.claims e1,
  any-find (blocks c.principal_id c.service_id) r.claims e2,
)

outer_tests : (a b c : Bool) → (not a && b && c) ≡ true → (a ≡ false) × (c ≡ true)
outer_tests a b c h = ground arith

pub both : (a b : Bool) → a ≡ true → b ≡ true → (a && b) ≡ true
both a b h k = ground arith

length_pos : (t : Text) → is_empty t ≡ false → leb 1 (length t) ≡ true
length_pos [] h = cc
length_pos (c ∷ t) h = ground arith

-- The CHECK constraints on a text that `_valid_text` accepts.
column_length-valid_text :
    (t : Text) (maximum : ℕ)
    → before_nul t ≡ t
    → valid_text t maximum ≡ true
    → column_length t maximum ≡ true
unfolding valid_text
column_length-valid_text t maximum e h =
    let (some_code, short) = outer_tests (is_empty t) (is_stripped t) (leb (length t) maximum) h in
    rw e (both (leb 1 (length t)) (leb (length t) maximum) (length_pos t some_code) short)

before_nul-hex : (t : Text) → all is_hex t ≡ true → before_nul t ≡ t
before_nul-hex [] h = refl
before_nul-hex (c ∷ t) h = ground (arith, before_nul-hex t)

hex_column :
    (t : Text)
    → valid_fingerprint t ≡ true
    → (length (before_nul t) == 64 && all is_hex (before_nul t)) ≡ true
unfolding valid_fingerprint
hex_column t h =
    let (n, hex) = and-true (length t == 64) (all is_hex t) h in rw (before_nul-hex t hex) h

common_fields :
    (c : CommandFields)
    → validate_common_fields c ≡ ok tt
    → (valid_text c.principal_id 128 ≡ true)
      × (valid_text c.created_via 64 ≡ true)
      × ((c.service_id == 0) ≡ false)
      × (valid_text c.idempotency_key 128 ≡ true)
unfolding validate_common_fields
common_fields c h = ground arith

six_tests :
    (a b c d e f g : Bool)
    → a ≡ true
    → b ≡ true
    → (c && d) ≡ true
    → e ≡ false
    → f ≡ true
    → g ≡ true
    → (a && b && c && d && not e && f && g) ≡ true
six_tests a b c d e f g h1 h2 h3 h4 h5 h6 = ground arith

module _ (p : Platform) (command : LifecycleCommand) (request : IsRequest p command) where
  -- The row of the prepared intent meets the CHECK constraints.
  pub valid_claim_row-prepared :
      (target : ManifestV2)
      → IsPreparable p command target
      → valid_claim_row (prepared_row (intent_of p command target)) ≡ true
  unfolding valid_claim_row prepared_row encode_intent
  valid_claim_row-prepared target h =
      let c = fields_of command in
      let (principal, created_via, service, key) = common_fields c h.fields_checked in
      six_tests _ _ _ _ _ _ _
        (column_length-valid_text c.principal_id 128 request.principal principal)
        (column_length-valid_text c.idempotency_key 128 request.key key)
        (hex_column (lifecycle_fingerprint p command) request.digest) service
        (column_length-valid_text c.created_via 64 request.created_via created_via) refl
