-- ===== src/Platform.antt =====
-- What the program takes from elsewhere: pydantic, json with hashlib, and uuid.
use aipcs_mcp.Prelude.{leb, Text, is_digit, ℕ, ◌≡◌, Bool, ◌&&◌, ◌||◌, Option}
use aipcs_mcp.Manifest.{ManifestV2}

pub data LifecycleKind : Type 0 where
  materialise evolve : LifecycleKind

unfoldable pub LifecycleKind-discrete : Discrete LifecycleKind
LifecycleKind-discrete = hlevel

-- `canonical_lifecycle_payload`: what the fingerprint of a request covers. A service id is the
-- number of its UUID.
pub record Payload : Type 0 where
  pub kind : LifecycleKind
  pub principal : Text
  pub created_via : Text
  pub service_id : ℕ
  pub expected_service_revision : ℕ
  pub expected_schema_version : ℕ
  pub target_manifest : Option ManifestV2

pub record Platform : Type 0 where
  -- The removal of white space by which pydantic reads a text.
  pub strip : Text → Text
  -- SHA-256, in hexadecimal, of the sorted compact JSON of a payload.
  pub digest : Payload → Text
  -- `UUID.hex`
  pub uuid_hex : ℕ → Text
  -- `str.isprintable` of one code point, a table of the Unicode database.
  pub printable : ℕ → Bool

-- The documented behaviour that the theorems use.
pub record IsStripping (p : Platform) : Type 0 where
  pub strip_idem : (s : Text) → p.strip (p.strip s) ≡ p.strip s

-- A lowercase hexadecimal digit.
abbrev pub is_hex : ℕ → Bool
is_hex c = is_digit c || leb b'a' c && leb c b'f'

-- The two payloads do not share a digest unless they are one payload.
pub record NoCollision (p : Platform) (x y : Payload) : Type 0 where
  pub injective : p.digest x ≡ p.digest y → x ≡ y
