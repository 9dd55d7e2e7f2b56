-- ===== src/Manifest/Data.antt =====
-- The documents. `manifest_version` is the constant 2 and is left out.
use aipcs_mcp.Prelude.{Text, ℤ, ℕ, Bool, Option, List, ℕ_discrete}

pub data AttributeType : Type 0 where
  string integer number boolean datetime uuid string_list : AttributeType

pub data RetrievalMode : Type 0 where
  annotation membership : RetrievalMode

pub data OnDelete : Type 0 where
  restrict : OnDelete

pub data NonFinite : Type 0 where
  nan infinity minus_infinity : NonFinite

-- A finite float is an integer multiple of 2 ^ -1074, and `float n` stands for n * 2 ^ -1074.
pub data AllowedValue : Type 0 where
  str : Text → AllowedValue
  int : ℤ → AllowedValue
  float : ℤ → AllowedValue
  non_finite : NonFinite → AllowedValue
  bool : Bool → AllowedValue

pub record AttributeDefinition : Type 0 where
  pub name : Text
  pub type : AttributeType
  pub required : Bool
  pub primary_key : Bool
  pub description : Option Text
  pub allowed_values : Option (List AllowedValue)
  pub retrieval_mode : Option RetrievalMode

pub record EntityDefinition : Type 0 where
  pub name : Text
  pub attributes : List AttributeDefinition
  pub description : Option Text

pub record RelationshipEndpoint : Type 0 where
  pub entity : Text
  pub field : Text

pub record RelationshipDefinition : Type 0 where
  pub name : Text
  pub from : RelationshipEndpoint
  pub to : RelationshipEndpoint
  pub on_delete : OnDelete

pub record IndexDefinition : Type 0 where
  pub name : Text
  pub entity : Text
  pub fields : List Text
  pub unique : Bool

pub record DiscoveryFacet : Type 0 where
  pub entity : Text
  pub field : Text

pub record MigrationHistoryEntry : Type 0 where
  pub from_schema_version : ℕ
  pub to_schema_version : ℕ
  pub operations : List Text

pub record ManifestV2 : Type 0 where
  pub schema_version : ℕ
  pub entities : List EntityDefinition
  pub relationships : List RelationshipDefinition
  pub indices : List IndexDefinition
  pub query_patterns : List Text
  pub discovery_facets : List DiscoveryFacet
  pub retrieval_guidance : Option Text
  pub migration_history : List MigrationHistoryEntry

unfoldable pub AttributeType-discrete : Discrete AttributeType
AttributeType-discrete = hlevel

unfoldable pub OptionText-discrete : Discrete (Option Text)
unfolding ℕ_discrete
OptionText-discrete = hlevel ℕ_discrete

unfoldable pub OptionMode-discrete : Discrete (Option RetrievalMode)
OptionMode-discrete = hlevel

unfoldable pub AllowedValue-discrete : Discrete AllowedValue
unfolding ℕ_discrete
AllowedValue-discrete = hlevel ℕ_discrete

unfoldable pub RelationshipEndpoint-discrete : Discrete RelationshipEndpoint
unfolding ℕ_discrete
RelationshipEndpoint-discrete = hlevel ℕ_discrete

unfoldable pub RelationshipDefinition-discrete : Discrete RelationshipDefinition
unfolding ℕ_discrete
RelationshipDefinition-discrete = hlevel ℕ_discrete

unfoldable pub IndexDefinition-discrete : Discrete IndexDefinition
unfolding ℕ_discrete
IndexDefinition-discrete = hlevel ℕ_discrete

unfoldable pub Texts-discrete : Discrete (List Text)
unfolding ℕ_discrete
Texts-discrete = hlevel ℕ_discrete

unfoldable pub Pair-discrete : Discrete (Text × Text)
unfolding ℕ_discrete
Pair-discrete = hlevel ℕ_discrete

unfoldable pub IndexKey-discrete : Discrete (Text × List Text × Bool)
unfolding ℕ_discrete
IndexKey-discrete = hlevel ℕ_discrete

unfoldable pub RelationKey-discrete : Discrete (Text × Text × Text × Text × OnDelete)
unfolding ℕ_discrete
RelationKey-discrete = hlevel ℕ_discrete

unfoldable pub Facets-discrete : Discrete (List DiscoveryFacet)
unfolding ℕ_discrete
Facets-discrete = hlevel ℕ_discrete

unfoldable pub History-discrete : Discrete (List MigrationHistoryEntry)
unfolding ℕ_discrete
History-discrete = hlevel ℕ_discrete

unfoldable pub ManifestV2-discrete : Discrete ManifestV2
unfolding ℕ_discrete
ManifestV2-discrete = hlevel ℕ_discrete
