-- ===== src/Manifest/Names.antt =====
-- Identifiers, the server-managed fields and the limits of a manifest.
use aipcs_mcp.Prelude.{
  leb, if◌then◌else◌, ◌==◌, length, all, Text, codes, is_lower, is_digit, starts_with, in_range, ℕ,
  ◌+◌, ◌-◌, ◌^◌, Bool, true, false, ◌&&◌, ◌||◌, List, [], ◌∷◌, map,
}
use aipcs_mcp.Manifest.Data.{
  AttributeType, string, integer, datetime, uuid, AllowedValue, int, float,
}

abbrev pub max_entities : ℕ
max_entities = 32

abbrev pub max_attributes_per_entity : ℕ
max_attributes_per_entity = 64

abbrev pub max_relationships : ℕ
max_relationships = 128

abbrev pub max_indices : ℕ
max_indices = 128

abbrev pub max_query_patterns : ℕ
max_query_patterns = 32

abbrev pub max_discovery_facets : ℕ
max_discovery_facets = 64

abbrev is_identifier_character : ℕ → Bool
is_identifier_character c = is_lower c || is_digit c || c == b'_'

-- `^[a-z][a-z0-9_]{0,62}$`
unfoldable pub identifier : Text → Bool
identifier [] = false
identifier (c ∷ rest) = is_lower c && all is_identifier_character rest && leb (length rest) 62

-- A declaration that every entity has: its name, type, and whether it is the primary key. All
-- are required.
pub record ManagedField : Type 0 where
  pub name : Text
  pub type : AttributeType
  pub required : Bool
  pub primary_key : Bool

unfoldable pub server_managed_fields : List ManagedField
server_managed_fields =
    record { name = codes "id"; type = uuid; required = true; primary_key = true }
    ∷ record { name = codes "owner_id"; type = string; required = true; primary_key = false }
    ∷ record { name = codes "created_at"; type = datetime; required = true; primary_key = false }
    ∷ record { name = codes "updated_at"; type = datetime; required = true; primary_key = false }
    ∷ record { name = codes "created_via"; type = string; required = true; primary_key = false }
    ∷ record { name = codes "record_version"; type = integer; required = true; primary_key = false }
    ∷ []

-- `str.casefold` on ASCII, which is where the names of a manifest lie: see `identifier`.
abbrev casefold : Text → Text
casefold = map (λ c. if leb b'A' c && leb c b'Z' then c + 32 else c)

unfoldable pub is_sqlite_reserved : Text → Bool
is_sqlite_reserved name = starts_with (casefold name) (codes "sqlite_")

-- numeric_domain.py
unfoldable pub is_signed_64_integer : AllowedValue → Bool
is_signed_64_integer (int v) = in_range (2 ^ 63) (2 ^ 63 - 1) v
is_signed_64_integer _ = false

unfoldable pub is_exact_number : AllowedValue → Bool
is_exact_number (int v) = in_range (2 ^ 53) (2 ^ 53) v
is_exact_number (float v) = true
is_exact_number _ = false
