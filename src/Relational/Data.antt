-- ===== src/Relational/Data.antt =====
-- The relational values. `on_update` and `constraint_timing` have one value each and are left out.
use aipcs_mcp.Prelude.{
  if◌then◌else◌, same, Text, Result, ok, err, ℕ, Bool, true, false, Option, List, ℕ_discrete,
}
use aipcs_mcp.Manifest.{AttributeType, OnDelete}

-- The one exception of the module.
pub data RelationalContractError : Type 0 where
  relational_contract_error : RelationalContractError

abbrev pub Contract : Type 0 → Type 0
Contract A = Result RelationalContractError A

-- A dataclass whose `__post_init__` raises unless the value is valid.
abbrev pub checked : {A : Type 0} → (A → Bool) → A → Contract A
checked valid a = if valid a then ok a else err relational_contract_error

-- `if not b: raise RelationalContractError()`
abbrev pub require : Bool → Contract (Unit {0})
require true = ok tt
require false = err relational_contract_error

pub record RelationalField : Type 0 where
  pub name : Text
  pub logical_type : AttributeType
  pub required : Bool
  pub primary_key : Bool

pub record RelationalEntity : Type 0 where
  pub name : Text
  pub fields : List RelationalField

pub record RelationalRelationship : Type 0 where
  pub name : Text
  pub source_entity : Text
  pub source_field : Text
  pub target_entity : Text
  pub target_field : Text
  pub on_delete : OnDelete

pub record RelationalIndex : Type 0 where
  pub name : Text
  pub entity : Text
  pub fields : List Text
  pub unique : Bool

pub record RelationalSpecification : Type 0 where
  pub schema_version : ℕ
  pub entities : List RelationalEntity
  pub relationships : List RelationalRelationship
  pub indices : List RelationalIndex

pub record FieldAddition : Type 0 where
  pub entity : Text
  pub field : RelationalField

pub record RelationalAdditions : Type 0 where
  pub entities : List RelationalEntity
  pub fields : List FieldAddition
  pub relationships : List RelationalRelationship
  pub indices : List RelationalIndex

pub data MetadataChangeKind : Type 0 where
  entity_description attribute_description retrieval_guidance query_patterns : MetadataChangeKind
  discovery_facets retrieval_mode allowed_values_expansion : MetadataChangeKind

pub record MetadataChange : Type 0 where
  pub kind : MetadataChangeKind
  pub entity : Option Text
  pub field : Option Text

pub record RelationalTransition : Type 0 where
  pub current : RelationalSpecification
  pub target : RelationalSpecification
  pub additions : RelationalAdditions
  pub metadata_changes : List MetadataChange

unfoldable pub Fields-discrete : Discrete (List RelationalField)
unfolding ℕ_discrete
Fields-discrete = hlevel ℕ_discrete

unfoldable pub RelationalRelationship-discrete : Discrete RelationalRelationship
unfolding ℕ_discrete
RelationalRelationship-discrete = hlevel ℕ_discrete

unfoldable pub RelationalIndex-discrete : Discrete RelationalIndex
unfolding ℕ_discrete
RelationalIndex-discrete = hlevel ℕ_discrete

unfoldable pub RelationalAdditions-discrete : Discrete RelationalAdditions
unfolding ℕ_discrete
RelationalAdditions-discrete = hlevel ℕ_discrete

unfoldable pub MetadataChange-discrete : Discrete MetadataChange
unfolding ℕ_discrete
MetadataChange-discrete = hlevel ℕ_discrete

unfoldable pub MetadataChanges-discrete : Discrete (List MetadataChange)
unfolding ℕ_discrete
MetadataChanges-discrete = hlevel ℕ_discrete

unfoldable pub RelationalSpecification-discrete : Discrete RelationalSpecification
unfolding ℕ_discrete
RelationalSpecification-discrete = hlevel ℕ_discrete

-- `RelationalSpecification.same_structure_as`
unfoldable pub same_structure_as : RelationalSpecification → RelationalSpecification → Bool
unfolding RelationalSpecification-discrete
same_structure_as a b =
    same RelationalSpecification-discrete (record a { schema_version = 0 })
      (record b { schema_version = 0 })
