-- ===== src/Types.antt =====
-- src/core/types.ts: the canonical model.
use hubspot_salesforce_conne.Prelude.{String, Bool, true, false, Option, List, ◌==◌}
use hubspot_salesforce_conne.Prelude.Dict.{Dict}
use hubspot_salesforce_conne.Prelude.Time.{Timestamp}

-- `'salesforce' | 'hubspot'`
pub data SystemId : Type 0 where
  salesforce hubspot : SystemId

abbrev pub system_eq : SystemId → SystemId → Bool
system_eq salesforce salesforce = true
system_eq hubspot hubspot = true
system_eq _ _ = false

-- `system === 'salesforce' ? 'hubspot' : 'salesforce'`
abbrev pub other : SystemId → SystemId
other salesforce = hubspot
other hubspot = salesforce

-- the text of a system in a template literal
abbrev pub system_text : SystemId → String
system_text salesforce = "salesforce"
system_text hubspot = "hubspot"

-- `Record<SystemId, A>`
pub record PerSystem {ℓ} (A : Type ℓ) : Type ℓ where
  pub sf : A
  pub hs : A

abbrev pub of_system {ℓ} : {A : Type ℓ} → SystemId → PerSystem A → A
of_system salesforce p = p.sf
of_system hubspot p = p.hs

abbrev pub set_system {ℓ} : {A : Type ℓ} → SystemId → A → PerSystem A → PerSystem A
set_system salesforce a p = record p { sf = a }
set_system hubspot a p = record p { hs = a }

-- A scalar. A number is kept as the text that `String(n)` gives for it: two numbers (other than
-- NaN, which no JSON holds) are `===` exactly if these texts are equal.
pub data FieldValue : Type 0 where
  str : String → FieldValue
  num : String → FieldValue
  bool : Bool → FieldValue
  null : FieldValue

-- `===`
abbrev pub value_eq : FieldValue → FieldValue → Bool
value_eq (str a) (str b) = a == b
value_eq (num a) (num b) = a == b
value_eq (bool true) (bool true) = true
value_eq (bool false) (bool false) = true
value_eq null null = true
value_eq _ _ = false

abbrev pub Fields : Type 0
Fields = Dict FieldValue

pub record CanonicalAssociation : Type 0 where
  pub kind : String
  pub canonical_id : Option String
  pub source : Option SystemId
  pub source_id : Option String
  pub label : Option String

pub record RecordMeta : Type 0 where
  pub source : SystemId
  pub source_id : String
  pub modified_at : Timestamp
  pub deleted : Option Bool

pub record CanonicalRecord : Type 0 where
  pub canonical_id : String
  pub type : String
  pub fields : Fields
  pub associations : Option (List CanonicalAssociation)
  pub meta : RecordMeta

pub data Operation : Type 0 where
  created updated skipped deleted : Operation

pub record UpsertResult : Type 0 where
  pub system : SystemId
  pub type : String
  pub target_id : String
  pub operation : Operation

pub data ChangeType : Type 0 where
  created updated deleted : ChangeType

pub record ChangeEvent : Type 0 where
  pub event_id : Option String
  pub system : SystemId
  pub type : String
  pub source_id : String
  pub change_type : ChangeType
  pub occurred_at : Timestamp

pub record Criterion : Type 0 where
  pub field : String
  pub value : String

pub record NaturalKeyQuery : Type 0 where
  pub field : String
  pub value : String
  pub key : String
  pub criteria : List Criterion
