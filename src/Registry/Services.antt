-- ===== src/Registry/Services.antt =====
-- `Service` of application/models.py, its checks, and those of `validate_service` of
-- storage/codecs.py. A time is a UTC instant, as a number of microseconds.
use aipcs_mcp.Prelude.{
  leb, same, ◌==◌, is_none, length, drop, all, Text, Text-discrete, codes, starts_with, ℕ, Bool,
  true, false, not, ◌&&◌, Option, none, some, ◌++◌, ℕ_discrete,
}
use aipcs_mcp.Manifest.{ManifestV2-discrete, ManifestV2, identifier, model_validate}
use aipcs_mcp.Platform.{is_hex, Platform}
use aipcs_mcp.Lifecycle.{max_service_revision, valid_text}

pub data StorageBackend : Type 0 where
  sqlite postgresql : StorageBackend

pub data DesignState : Type 0 where
  seeded materialised : DesignState

pub data OperationalStatus : Type 0 where
  active suspended archived : OperationalStatus

pub record MaterialisationStorage : Type 0 where
  pub backend : StorageBackend
  pub namespace : Text

pub record Service : Type 0 where
  pub service_id : ℕ
  pub principal_id : Text
  pub domain_name : Text
  pub domain_class : Text
  pub intent_description : Text
  pub created_at : ℕ
  pub updated_at : ℕ
  pub last_activity_at : ℕ
  pub manifest : Option ManifestV2
  pub schema_version : Option ℕ
  pub design_state : DesignState
  pub operational_status : OperationalStatus
  pub service_revision : ℕ
  pub materialised_at : Option ℕ
  pub storage : Option MaterialisationStorage

unfoldable pub Namespace-discrete : Discrete (Option Text)
unfolding ℕ_discrete
Namespace-discrete = hlevel ℕ_discrete

abbrev pub is_active : OperationalStatus → Bool
is_active active = true
is_active _ = false

abbrev pub is_seeded : DesignState → Bool
is_seeded seeded = true
is_seeded materialised = false

-- `^svc_[0-9a-f]{32}$`, and not the name of the zero UUID.
unfoldable pub valid_namespace : Text → Bool
valid_namespace n =
    starts_with n (codes "svc_")
    && length n == 36
    && all is_hex (drop 4 n)
    && not (all (λ c. c == b'0') (drop 4 n))

-- `f"svc_{service_id.hex}"`
unfoldable pub namespace_of : Platform → ℕ → Text
namespace_of p service_id = codes "svc_" ++ p.uuid_hex service_id

-- `_text` of codecs.py
unfoldable pub printable_text : Platform → Text → ℕ → Bool
unfolding valid_text
printable_text p value maximum = valid_text value maximum && all p.printable value

abbrev pub valid_version : Option ManifestV2 → Option ℕ → Bool
valid_version none none = true
valid_version (some m) (some v) = leb 1 v && leb v 65 && m.schema_version == v
valid_version _ _ = false

abbrev decodes_to : Option ManifestV2 → ManifestV2 → Bool
decodes_to none m = false
decodes_to (some n) m = same ManifestV2-discrete n m

-- `_decode_manifest`: the stored manifest validates, and is the one that the validation returns.
abbrev pub valid_stored_manifest : Platform → Option ManifestV2 → Bool
valid_stored_manifest p none = true
valid_stored_manifest p (some m) = decodes_to (model_validate p.strip m) m

abbrev pub valid_storage : Platform → ℕ → ℕ → ℕ → Option ℕ → Option MaterialisationStorage → Bool
valid_storage p service_id created updated none none = true
valid_storage p service_id created updated (some at) (some s) =
    leb created at
    && leb at updated
    && valid_namespace s.namespace
    && same Text-discrete s.namespace (namespace_of p service_id)
valid_storage p service_id created updated _ _ = false

abbrev pub valid_state :
    DesignState → Option ManifestV2 → Option ℕ → Option MaterialisationStorage → Bool
valid_state seeded manifest at storage = is_none at && is_none storage
valid_state materialised manifest at storage =
    not (is_none manifest) && not (is_none at) && not (is_none storage)

-- The tests on the fields other than the manifest, the storage and the states.
unfoldable pub valid_service_fields : Platform → Service → Bool
unfolding printable_text identifier
valid_service_fields p s =
    not (s.service_id == 0)
    && printable_text p s.principal_id 128
    && printable_text p s.domain_name 63
    && identifier s.domain_name
    && printable_text p s.domain_class 64
    && printable_text p s.intent_description 1000
    && leb s.created_at s.updated_at
    && leb s.updated_at s.last_activity_at
    && leb 1 s.service_revision
    && leb s.service_revision max_service_revision

-- `Service.__post_init__` with `validate_service`.
unfoldable pub valid_service : Platform → Service → Bool
unfolding ManifestV2-discrete valid_service_fields valid_namespace namespace_of Text-discrete
valid_service p s =
    valid_service_fields p s
    && valid_version s.manifest s.schema_version
    && valid_stored_manifest p s.manifest
    && valid_storage p s.service_id s.created_at s.updated_at s.materialised_at s.storage
    && valid_state s.design_state s.manifest s.materialised_at s.storage
