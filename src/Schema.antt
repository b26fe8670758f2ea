-- ===== src/Schema.antt =====
-- src/core/types.ts: how connectors describe the objects of their systems.
use hubspot_salesforce_conne.Prelude.{String, Bool, true, false, Option, none, some, List}

pub record FieldOption : Type 0 where
  pub value : String
  pub label : String

pub record SchemaField : Type 0 where
  pub name : String
  pub label : String
  pub type : String
  pub required : Option Bool
  pub read_only : Option Bool
  pub createable : Option Bool
  pub updateable : Option Bool
  pub unique : Option Bool
  pub calculated : Option Bool
  pub custom : Option Bool
  pub description : Option String
  pub group : Option String
  pub options : Option (List FieldOption)

-- whether an optional flag is set
abbrev pub is_set : Option Bool → Bool
is_set none = false
is_set (some b) = b

pub record CrmObjectDescriptor : Type 0 where
  pub id : String
  pub label : String
  pub plural_label : String
  pub custom : Bool
  pub queryable : Bool
  pub createable : Bool
  pub updateable : Bool
  pub deletable : Bool
  pub canonical_type : Option String

pub data RelationshipKind : Type 0 where
  parent child association : RelationshipKind

pub record SchemaRelationship : Type 0 where
  pub name : String
  pub label : String
  pub target_object_id : String
  pub kind : RelationshipKind

pub record CrmObjectMetadata : Type 0 where
  pub object : CrmObjectDescriptor
  pub fields : List SchemaField
  pub relationships : List SchemaRelationship

-- an object that can be read and written, and is not known to be mapped
abbrev pub full_access : (id label plural : String) → (custom : Bool) → CrmObjectDescriptor
full_access id label plural custom = record {
  id = id;
  label = label;
  plural_label = plural;
  custom = custom;
  queryable = true;
  createable = true;
  updateable = true;
  deletable = true;
  canonical_type = none;
}

-- a field of which only the name and the type are known
abbrev pub plain_field : (name label type : String) → SchemaField
plain_field name label type = record {
  name = name;
  label = label;
  type = type;
  required = none;
  read_only = none;
  createable = none;
  updateable = none;
  unique = none;
  calculated = none;
  custom = none;
  description = none;
  group = none;
  options = none;
}
